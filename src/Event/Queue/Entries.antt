-- ===== src/Event/Queue/Entries.antt =====
-- What is at the addresses of handlers, when one is written.
use whoa.Base.{ℕ, ◌≡◌, refl, ap, arith, ◌==◌, true, false, List, [], ◌∷◌, map}
use whoa.Base.Removal.{Avoids}
use whoa.Event.Queue.{ExplicitList, Priority, put_at}

module _ (s : ExplicitList) (order : Priority) (World : Type 0) where
  pub put_at_same : {A : Type 0} (i : ℕ) (a : A) (f : ℕ → A) → put_at s order World i a f i ≡ a
  put_at_same i a f = let same : (i == i) ≡ true = ground arith in rw same refl

  pub put_at_other :
      {A : Type 0} (i j : ℕ) (a : A) (f : ℕ → A)
      → (j == i) ≡ false
      → put_at s order World i a f j ≡ f j
  put_at_other i j a f e = rw e refl

  pub map-put_at :
      {A : Type 0} (handlers : ℕ → A) (n : ℕ) (h : A) (as' : List ℕ)
      → Avoids n as'
      → map (put_at s order World n h handlers) as' ≡ map handlers as'
  map-put_at handlers n h [] k = refl
  map-put_at handlers n h (a ∷ as') k =
      let other : (a == n) ≡ false = let ne = k.0 in ground arith in
      rw (other) (ap (◌∷◌ (handlers a)) (map-put_at handlers n h as' k.1))
