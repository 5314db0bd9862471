-- ===== src/Base/Removal.antt =====
-- Lists of addresses: taking one out, and those without repetition.
use whoa.Base.Tests.{◌==◌, if◌then◌else◌}
use whoa.Base.Lists.{All}
use Prim.Native.Nat.{ℕ}
use mathlib.Core.Path.{◌≡◌, refl, ap}
use mathlib.Core.Logic.{◌≢◌}
use mathlib.Core.Bool.{false, true}
use mathlib.Core.List.{List, [], ◌∷◌, ◌++◌}
use native.Mathlib.Omega.{arith}

abbrev pub remove : ℕ → List ℕ → List ℕ
remove a [] = []
remove a (b ∷ bs) = if b == a then remove a bs else b ∷ remove a bs

-- The address is not in the list.
abbrev pub Avoids : ℕ → List ℕ → Type 0
Avoids a bs = All (λ b. b ≢ a) bs

abbrev pub Distinct : List ℕ → Type 0
Distinct [] = Unit
Distinct (a ∷ as') = Avoids a as' × Distinct as'

pub remove-Avoids : (a : ℕ) (bs : List ℕ) → Avoids a bs → remove a bs ≡ bs
remove-Avoids a [] h = refl
remove-Avoids a (b ∷ bs) h =
    let other : (b == a) ≡ false = let ne = h.0 in ground arith in
    rw other (ap (◌∷◌ b) (remove-Avoids a bs h.1))

pub Avoids-append : (a : ℕ) (p q : List ℕ) → Avoids a p → Avoids a q → Avoids a (p ++ q)
Avoids-append a [] q h k = k
Avoids-append a (x ∷ p) q h k = (h.0, Avoids-append a p q h.1 k)

pub append-Avoids : (a : ℕ) (p q : List ℕ) → Avoids a (p ++ q) → Avoids a p × Avoids a q
append-Avoids a [] q h = (tt, h)
append-Avoids a (x ∷ p) q h = let (l, r) = append-Avoids a p q h.1 in ((h.0, l), r)

-- Taking out the one that stands between two parts.
pub remove-middle :
    (a : ℕ) (p q : List ℕ) → Avoids a p → Avoids a q → remove a (p ++ (a ∷ q)) ≡ p ++ q
remove-middle a [] q h k =
    let same : (a == a) ≡ true = ground arith in rw same (remove-Avoids a q k)
remove-middle a (x ∷ p) q h k =
    let other : (x == a) ≡ false = let ne = h.0 in ground arith in
    rw other (ap (◌∷◌ x) (remove-middle a p q h.1 k))

-- What stands behind a part is not in it.
pub Distinct-middle : (a : ℕ) (p q : List ℕ) → Distinct (p ++ (a ∷ q)) → Avoids a p × Avoids a q
Distinct-middle a [] q h = (tt, h.0)
Distinct-middle a (x ∷ p) q h =
    let (l, r) = Distinct-middle a p q h.1 in
    let (before, here) = append-Avoids x p (a ∷ q) h.0 in ((λ e. here.0 (e' x a e), l), r)
  where
    e' : (x a : ℕ) → x ≡ a → a ≡ x
    e' x a e = omega (arith, e)
