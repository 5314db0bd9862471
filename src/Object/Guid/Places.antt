-- ===== src/Object/Guid/Places.antt =====
-- The bytes that a GUID takes in a message are told by its mask.
use whoa.Base.{
  ℕ, zero, suc, ◌+◌, ◌*◌, ◌^◌, ap, sym, ◌==◌, if◌then◌else◌, bit_and, Bool-cases, inl, inr,
}
use whoa.Object.DataStore.{DataStore, DataStoreLaws}
use whoa.Object.DataStore.Reads.{Reads, Reads-get, Reads-then, Same, Same-Reads}
use whoa.Object.DataStore.Places.{IsPlaced, Reads-none, Reads-IsPlaced, Reads-same, Same-read}
use whoa.Object.Guid.{guid_byte, guid_bytes, get_guid}

-- How many of n bytes from byte i on a mask tells of.
abbrev pub guid_count : ℕ → ℕ → ℕ → ℕ
guid_count zero mask i = 0
guid_count (suc n) mask i =
    (if bit_and mask (1 * 2 ^ i) == 0 then 0 else 1) + guid_count n mask (suc i)

module _ (d : DataStore) (laws : DataStoreLaws d) where
  Reads-guid_byte :
      (mask i guid : ℕ) (s : d.Store)
      → IsPlaced d laws s
      → Reads d laws
          (if bit_and mask (1 * 2 ^ i) == 0 then 0 else 1)
          s
          (guid_byte d mask i guid s).1
  unfolding guid_byte
  Reads-guid_byte mask i guid s h = elim (Bool-cases (bit_and mask (1 * 2 ^ i) == 0)) [
    | inl absent ↦ rw absent (Reads-none d laws s h)
    | inr present ↦ rw present (Reads-get d laws 1 s)
  ]

  Reads-guid_bytes :
      (n mask i guid : ℕ) (s : d.Store)
      → IsPlaced d laws s
      → Reads d laws (guid_count n mask i) s (guid_bytes d n mask i guid s).1
  unfolding guid_bytes
  Reads-guid_bytes zero mask i guid s h = Reads-none d laws s h
  Reads-guid_bytes (suc n) mask i guid s h =
      let (g, s1) = guid_byte d mask i guid s in
      let byte = Reads-guid_byte mask i guid s h in
      Reads-then d laws _ (guid_count n mask (suc i)) s s1 (guid_bytes d n mask (suc i) g s1).1 byte
        (Reads-guid_bytes n mask (suc i) g s1 (Reads-IsPlaced d laws _ s s1 byte))

  pub Reads-get_guid :
      (s : d.Store) → Reads d laws (1 + guid_count 8 (d.get 1 s).0 0) s (get_guid d s).1
  unfolding get_guid
  Reads-get_guid s =
      let first = Reads-get d laws 1 s in
      Reads-then d laws 1 (guid_count 8 (d.get 1 s).0 0) s (d.get 1 s).1 (get_guid d s).1 first
        (Reads-guid_bytes 8 (d.get 1 s).0 0 0 (d.get 1 s).1 (Reads-IsPlaced d laws 1 s _ first))

  pub Same-get_guid :
      (s t : d.Store) → Same d laws s t → Same d laws (get_guid d s).1 (get_guid d t).1
  Same-get_guid s t e =
      let a = Reads-get_guid s in
      let b = Reads-get_guid t in
      Same-read d laws 1 _ _ s t (get_guid d s).1 (get_guid d t).1 e a b (λ v.
        Same-Reads d laws _ s t (get_guid d s).1 (get_guid d t).1 e a
          (Reads-same d laws _ _ t (get_guid d t).1 (ap (λ m. 1 + guid_count 8 m 0) (sym v)) b))
