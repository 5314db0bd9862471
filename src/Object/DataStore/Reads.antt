-- ===== src/Object/DataStore/Reads.antt =====
-- Places in a message: reads that follow one another are one read of as many bytes.
use whoa.Base.{ℕ, suc, ◌+◌, ◌≤◌, ◌≡◌, ap, ◌∙◌, sym, arith, length, take, drop}
use whoa.Object.DataStore.{DataStore, DataStoreLaws, read_to, little_endian}

pub read_to-read_to : (size p m n : ℕ) → read_to size (read_to size p m) n ≡ read_to size p (m + n)
read_to-read_to size p m n = ground arith

pub read_to-le : (size p n : ℕ) → read_to size p n ≤ size + 1
read_to-le size p n = ground arith

module _ (d : DataStore) (laws : DataStoreLaws d) where
  open laws use {content, content-get, content-data, tell-get, tell-data, get_value}

  -- Two stores of one content, read to one place.
  pub record Same (s t : d.Store) : Type 0 where
    pub contents : content s ≡ content t
    pub places : d.tell s ≡ d.tell t

  -- How far a store was read: n bytes on from another.
  pub record Reads (n : ℕ) (s t : d.Store) : Type 0 where
    pub contents : content t ≡ content s
    pub place : d.tell t ≡ read_to (length (content s)) (d.tell s) n

  pub Reads-get : (n : ℕ) (s : d.Store) → Reads n s (d.get n s).1
  Reads-get n s = record { contents = content-get n s; place = tell-get n s }

  pub Reads-data : (n : ℕ) (s : d.Store) → Reads n s (d.get_data_in_situ n s)
  Reads-data n s = record { contents = content-data n s; place = tell-data n s }

  pub Reads-then : (m n : ℕ) (s t u : d.Store) → Reads m s t → Reads n t u → Reads (m + n) s u
  Reads-then m n s t u a b = record {
    contents = b.contents ∙ a.contents;
    place =
        b.place
        ∙ ap (λ c. read_to (length c) (d.tell t) n) a.contents
        ∙ ap (λ p. read_to (length (content s)) p n) a.place
        ∙ read_to-read_to (length (content s)) (d.tell s) m n;
  }

  pub Reads-suc : (n : ℕ) (s t u : d.Store) → Reads 1 s t → Reads n t u → Reads (suc n) s u
  Reads-suc n s t u a b = record {
    contents = (Reads-then 1 n s t u a b).contents;
    place =
        (Reads-then 1 n s t u a b).place ∙ ap (read_to (length (content s)) (d.tell s)) one_more;
  }
    where
      one_more : 1 + n ≡ suc n
      one_more = omega arith

  pub Same-Reads :
      (n : ℕ) (s t s' t' : d.Store) → Same s t → Reads n s s' → Reads n t t' → Same s' t'
  Same-Reads n s t s' t' e a b = record {
    contents = a.contents ∙ e.contents ∙ sym b.contents;
    places =
        a.place
        ∙ ap (λ c. read_to (length c) (d.tell s) n) e.contents
        ∙ ap (λ p. read_to (length (content t)) p n) e.places
        ∙ sym b.place;
  }

  -- The number read is the same at the same place, if it fits.
  pub Same-value :
      (n : ℕ) (s t : d.Store)
      → Same s t
      → d.tell s + n ≤ length (content s)
      → (d.get n s).0 ≡ (d.get n t).0
  Same-value n s t e h =
      get_value n s h
      ∙ ap (λ c. little_endian (take n (drop (d.tell s) c))) e.contents
      ∙ ap (λ p. little_endian (take n (drop p (content t)))) e.places
      ∙ sym (get_value n t (omega (arith, h, e.places, ap length e.contents)))
