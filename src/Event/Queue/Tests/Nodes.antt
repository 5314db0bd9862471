-- ===== src/Event/Queue/Tests/Nodes.antt =====
-- Lists of addresses without repetition as the lists of storm.
use whoa.Base.{
  ℕ, ◌+◌, ◌<◌, ◌≤◌, ◌≡◌, ◌≢◌, refl, sym, ap, ◌∙◌, arith, ◌==◌, if◌then◌else◌, Bool, true, false,
  List, [], ◌∷◌, ◌++◌, Option, none, some, Bool-cases, inl, inr,
}
use mathlib.Core.Path.{subst}
use whoa.Base.Removal.{remove, Avoids, Distinct, remove-middle, Distinct-middle, Avoids-append}
use whoa.Event.Queue.{ExplicitList, ListLaws, first_of}

abbrev pub Nodes : Type 0
Nodes = (xs : List ℕ) × Distinct xs

-- A node put before or behind another, or last.
abbrev pub place : Bool → ℕ → ℕ → List ℕ → List ℕ
place before n e [] = n ∷ []
place before n e (x ∷ xs) =
    if x == e then if before then n ∷ x ∷ xs else x ∷ n ∷ xs else x ∷ place before n e xs

remove-Avoids_self : (n a : ℕ) (xs : List ℕ) → Avoids a xs → Avoids a (remove n xs)
remove-Avoids_self n a [] h = tt
remove-Avoids_self n a (x ∷ xs) h = elim (Bool-cases (x == n)) [
  | inl e ↦ rw e (remove-Avoids_self n a xs h.1)
  | inr e ↦ rw e (h.0, remove-Avoids_self n a xs h.1)
]

pub remove-away : (n : ℕ) (xs : List ℕ) → Avoids n (remove n xs)
remove-away n [] = tt
remove-away n (x ∷ xs) = elim (Bool-cases (x == n)) [
  | inl e ↦ rw e (remove-away n xs)
  | inr e ↦ rw e ((λ f. ground arith), remove-away n xs)
]

pub remove-Distinct : (n : ℕ) (xs : List ℕ) → Distinct xs → Distinct (remove n xs)
remove-Distinct n [] h = tt
remove-Distinct n (x ∷ xs) h = elim (Bool-cases (x == n)) [
  | inl e ↦ rw e (remove-Distinct n xs h.1)
  | inr e ↦ rw e (remove-Avoids_self n x xs h.0, remove-Distinct n xs h.1)
]

place-Avoids :
    (before : Bool) (n e a : ℕ) (xs : List ℕ) → n ≢ a → Avoids a xs → Avoids a (place before n e xs)
place-Avoids before n e a [] k h = (k, tt)
place-Avoids true n e a (x ∷ xs) k h = elim (Bool-cases (x == e)) [
  | inl f ↦ rw f (k, h)
  | inr f ↦ rw f (h.0, place-Avoids true n e a xs k h.1)
]
place-Avoids false n e a (x ∷ xs) k h = elim (Bool-cases (x == e)) [
  | inl f ↦ rw f (h.0, (k, h.1))
  | inr f ↦ rw f (h.0, place-Avoids false n e a xs k h.1)
]

turn : (a b : ℕ) → a ≢ b → b ≢ a
turn a b h e = h (sym e)

pub place-Distinct :
    (before : Bool) (n e : ℕ) (xs : List ℕ)
    → Avoids n xs
    → Distinct xs
    → Distinct (place before n e xs)
place-Distinct before n e [] k h = (tt, tt)
place-Distinct true n e (x ∷ xs) k h = elim (Bool-cases (x == e)) [
  | inl f ↦ rw f (k, h)
  | inr f ↦ rw f (place-Avoids true n e x xs (turn x n k.0) h.0, place-Distinct true n e xs k.1 h.1)
]
place-Distinct false n e (x ∷ xs) k h = elim (Bool-cases (x == e)) [
  | inl f ↦ rw f ((turn x n k.0, h.0), (k.1, h.1))
  | inr f ↦
      rw f (place-Avoids false n e x xs (turn x n k.0) h.0, place-Distinct false n e xs k.1 h.1)
]

pub last-Distinct : (n : ℕ) (xs : List ℕ) → Avoids n xs → Distinct xs → Distinct (xs ++ (n ∷ []))
last-Distinct n [] k h = (tt, tt)
last-Distinct n (x ∷ xs) k h =
    (Avoids-append x xs (n ∷ []) h.0 (turn x n k.0, tt), last-Distinct n xs k.1 h.1)

pub place-before :
    (n e : ℕ) (p q : List ℕ) → Avoids e p → place true n e (p ++ (e ∷ q)) ≡ p ++ (n ∷ (e ∷ q))
place-before n e [] q h = let same : (e == e) ≡ true = ground arith in rw same refl
place-before n e (x ∷ p) q h =
    let other : (x == e) ≡ false = let ne = h.0 in ground arith in
    rw other (ap (◌∷◌ x) (place-before n e p q h.1))

pub place-behind :
    (n e : ℕ) (p q : List ℕ) → Avoids e p → place false n e (p ++ (e ∷ q)) ≡ p ++ (e ∷ (n ∷ q))
place-behind n e [] q h = let same : (e == e) ≡ true = ground arith in rw same refl
place-behind n e (x ∷ p) q h =
    let other : (x == e) ≡ false = let ne = h.0 in ground arith in
    rw other (ap (◌∷◌ x) (place-behind n e p q h.1))

abbrev pub link : Bool → ℕ → Option ℕ → Nodes → Nodes
link true n none (xs, h) = (
  remove n xs ++ (n ∷ []),
  last-Distinct n (remove n xs) (remove-away n xs) (remove-Distinct n xs h),
)
link false n none (xs, h) = (n ∷ remove n xs, (remove-away n xs, remove-Distinct n xs h))
link before n (some e) (xs, h) = (
  place before n e (remove n xs),
  place-Distinct before n e (remove n xs) (remove-away n xs) (remove-Distinct n xs h),
)

abbrev pub next_of : ℕ → List ℕ → Option ℕ
next_of n [] = none
next_of n (x ∷ xs) = if x == n then first_of xs else next_of n xs

pub next_of-middle : (n : ℕ) (p q : List ℕ) → Avoids n p → next_of n (p ++ (n ∷ q)) ≡ first_of q
next_of-middle n [] q h = let same : (n == n) ≡ true = ground arith in rw same refl
next_of-middle n (x ∷ p) q h =
    let other : (x == n) ≡ false = let ne = h.0 in ground arith in
    rw other (next_of-middle n p q h.1)

-- More than all addresses together.
abbrev pub beyond : List ℕ → ℕ
beyond [] = 1
beyond (x ∷ xs) = x + beyond xs

pub small-Avoids : (xs : List ℕ) (n : ℕ) → beyond xs ≤ n → Avoids n xs
small-Avoids [] n h = tt
small-Avoids (x ∷ xs) n h =
    ((λ e. let one = beyond-positive xs in omega arith), small-Avoids xs n (omega (arith, h)))
  where
    beyond-positive : (ys : List ℕ) → 0 < beyond ys
    beyond-positive [] = omega arith
    beyond-positive (y ∷ ys) = let ih = beyond-positive ys in omega arith

abbrev pub nodes : ExplicitList
nodes = record {
  Links = Nodes;
  fresh = λ l. beyond l.0;
  head = λ l. first_of l.0;
  next = λ n l. next_of n l.0;
  link_after = link false;
  link_before = link true;
  unlink_node = λ n l. (remove n l.0, remove-Distinct n l.0 l.1);
  delete_node = λ n l. (next_of n l.0, (remove n l.0, remove-Distinct n l.0 l.1));
  clear = λ l. ([], tt);
}

pub split-middle :
    (n : ℕ) (xs p q : List ℕ) → Distinct xs → xs ≡ p ++ (n ∷ q) → Avoids n p × Avoids n q
split-middle n xs p q h e = Distinct-middle n p q (subst Distinct e h)

abbrev pub nodes-laws : ListLaws nodes
nodes-laws = record {
  items = λ l. l.0;
  distinct = λ l. l.1;
  fresh_lem = λ l. small-Avoids l.0 (beyond l.0) (omega arith);
  head_lem = λ l. refl;
  next_lem = λ n l p q e. ap (next_of n) e ∙ next_of-middle n p q (split-middle n l.0 p q l.1 e).0;
  after_head = λ n l. refl;
  after_node = λ n e l p q f.
      ap (place false n e) f
      ∙ place-behind n e p q (split-middle e (remove n l.0) p q (remove-Distinct n l.0 l.1) f).0;
  before_tail = λ n l. refl;
  before_node = λ n e l p q f.
      ap (place true n e) f
      ∙ place-before n e p q (split-middle e (remove n l.0) p q (remove-Distinct n l.0 l.1) f).0;
  unlink_lem = λ n l. refl;
  delete_lem = λ n l p q e. (
    ap (next_of n) e ∙ next_of-middle n p q (split-middle n l.0 p q l.1 e).0,
    ap (remove n) e
        ∙ remove-middle n p q (split-middle n l.0 p q l.1 e).0 (split-middle n l.0 p q l.1 e).1,
  );
  clear_lem = λ l. refl;
}
