-- ===== src/Object/DataStore/Places.antt =====
-- Places in a message behind reads that depend on tests and on what was read.
use whoa.Base.{
  ℕ, ◌+◌, ◌≤◌, ◌≡◌, refl, ap, ◌∙◌, sym, arith, length, Bool-cases, inl, inr, leb, List, [], ◌∷◌,
  Bool, true, false, if◌then◌else◌,
}
use whoa.Object.DataStore.{DataStore, DataStoreLaws, read_to, pure}
use whoa.Object.DataStore.Reads.{Reads, Reads-get, Reads-then, read_to-le, Same, Same-value}

-- The bytes of some numbers.
abbrev pub sum : List ℕ → ℕ
sum [] = 0
sum (n ∷ ns) = n + sum ns

module _ (d : DataStore) (laws : DataStoreLaws d) where
  open laws use {content}

  -- The place is in the message, or just behind its end.
  abbrev pub IsPlaced : d.Store → Type 0
  IsPlaced s = d.tell s ≤ length (content s) + 1

  pub Reads-IsPlaced : (n : ℕ) (s t : d.Store) → Reads d laws n s t → IsPlaced t
  Reads-IsPlaced n s t r =
      omega (arith, r.place, ap length r.contents, read_to-le (length (content s)) (d.tell s) n)

  pub Reads-none : (s : d.Store) → IsPlaced s → Reads d laws 0 s s
  Reads-none s h = record { contents = refl; place = ground (arith, h) }

  -- A read under a test.
  pub Reads-if :
      {A : Type 0} (b : Bool) (p : d.Store → A × d.Store) (a : A) (n : ℕ) (s : d.Store)
      → IsPlaced s
      → Reads d laws n s (p s).1
      → Reads d laws (if b then n else 0) s ((if b then p else pure a) s).1
  Reads-if true p a n s h r = r
  Reads-if false p a n s h r = Reads-none s h

  -- Numbers of so many bytes, read one after another.
  abbrev pub gets : List ℕ → d.Store → d.Store
  gets [] s = s
  gets (n ∷ ns) s = gets ns (d.get n s).1

  pub Reads-gets : (ns : List ℕ) (s : d.Store) → IsPlaced s → Reads d laws (sum ns) s (gets ns s)
  Reads-gets [] s h = Reads-none s h
  Reads-gets (n ∷ ns) s h =
      let first = Reads-get d laws n s in
      Reads-then d laws n (sum ns) s (d.get n s).1 (gets ns (d.get n s).1) first
        (Reads-gets ns (d.get n s).1 (Reads-IsPlaced n s (d.get n s).1 first))

  pub Reads-same : (m n : ℕ) (s t : d.Store) → m ≡ n → Reads d laws m s t → Reads d laws n s t
  Reads-same m n s t e r = record {
    contents = r.contents;
    place = r.place ∙ ap (read_to (length (content s)) (d.tell s)) e;
  }

  pub Same-refl : (s : d.Store) → Same d laws s s
  Same-refl s = record { contents = refl; places = refl }

  pub Same-IsPlaced : (s t : d.Store) → Same d laws s t → IsPlaced s → IsPlaced t
  Same-IsPlaced s t e h = omega (arith, h, e.places, ap length e.contents)

  -- After a first number was read, what follows may depend on it: where it does not fit, both
  -- stores are at their end.
  pub Same-read :
      (w m m' : ℕ) (s t s' t' : d.Store)
      → Same d laws s t
      → Reads d laws (w + m) s s'
      → Reads d laws (w + m') t t'
      → ((d.get w s).0 ≡ (d.get w t).0 → Same d laws s' t')
      → Same d laws s' t'
  Same-read w m m' s t s' t' e a b fits =
      elim (Bool-cases (leb (d.tell s + w) (length (content s)))) [
        | inl inside ↦ fits (Same-value d laws w s t e (ground (arith, inside)))
        | inr outside ↦ record {
          contents = a.contents ∙ e.contents ∙ sym b.contents;
          places = ground (arith, outside, a.place, b.place, e.places, ap length e.contents);
        }
      ]
