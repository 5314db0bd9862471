-- ===== src/Object/Guid/Packed.antt =====
-- What get_guid makes of the packed form of a GUID.
use whoa.Base.{
  ℕ, zero, suc, ◌+◌, ◌*◌, ◌/◌, ◌%◌, ◌^◌, ◌<◌, ◌≤◌, ◌≡◌, refl, ap, ◌∙◌, arith, List, [], ◌∷◌, ◌++◌,
  length, take, drop, Bool-cases, inl, inr, ◌==◌, if◌then◌else◌, bit, bit_or, bit_or_comm,
  bit_or_join, All, length-drop, true, false,
}
use native.Mathlib.Numerals.{towards_suc}
use whoa.Base.Masks.{test_bit_left}
use whoa.Object.DataStore.{DataStore, DataStoreLaws, little_endian}
use whoa.Object.DataStore.Reads.{Reads, Reads-get, Reads-suc}
use whoa.Object.Guid.{guid_byte, guid_bytes, get_guid}

-- The mask of some bytes, the digit of each telling whether it is not zero.
abbrev pub mask_of : List ℕ → ℕ
mask_of [] = 0
mask_of (b ∷ bs) = (if b == 0 then 0 else 1) + 2 * mask_of bs

-- The bytes that are not zero.
abbrev pub nonzero : List ℕ → List ℕ
nonzero [] = []
nonzero (b ∷ bs) = if b == 0 then nonzero bs else b ∷ nonzero bs

-- The eight places of a 64 bit number.
byte_fits : (i b : ℕ) → i < 8 → b < 256 → b * 2 ^ (i * 8) < 2 ^ 64
byte_fits zero b h k = omega arith
byte_fits (suc zero) b h k = omega arith
byte_fits (suc (suc zero)) b h k = omega arith
byte_fits (suc (suc (suc zero))) b h k = omega arith
byte_fits (suc (suc (suc (suc zero)))) b h k = omega arith
byte_fits (suc (suc (suc (suc (suc zero))))) b h k = omega arith
byte_fits (suc (suc (suc (suc (suc (suc zero)))))) b h k = omega arith
byte_fits (suc (suc (suc (suc (suc (suc (suc zero))))))) b h k = omega arith
byte_fits (suc (suc (suc (suc (suc (suc (suc (suc i)))))))) b h k = absurd (omega arith)

pow_eight : (k : ℕ) → 2 ^ (k + 8) ≡ 256 * 2 ^ k
pow_eight k = simp towards_suc (omega arith)

pow_bytes : (i : ℕ) → 2 ^ (suc i * 8) ≡ 256 * 2 ^ (i * 8)
pow_bytes i = ap (λ n. 2 ^ n) (omega arith) ∙ pow_eight (i * 8)

shift_value :
    (i b g l : ℕ) → g + b * 2 ^ (i * 8) + l * 2 ^ (suc i * 8) ≡ g + (b + l * 256) * 2 ^ (i * 8)
shift_value i b g l = rw (pow_bytes i) (grind arith)

shift_skip : (i b g l : ℕ) → b ≡ 0 → g + l * 2 ^ (suc i * 8) ≡ g + (b + l * 256) * 2 ^ (i * 8)
shift_skip i b g l e = rw (e, pow_bytes i) (grind arith)

byte_room : (i b g : ℕ) → b < 256 → g < 2 ^ (i * 8) → g + b * 2 ^ (i * 8) < 2 ^ (suc i * 8)
byte_room i b g h k = rw (pow_bytes i) (grind (arith, h, k))

add_byte :
    (i b guid : ℕ)
    → i < 8
    → b < 256
    → guid < 2 ^ (i * 8)
    → bit_or guid (b * 2 ^ (i * 8) % 2 ^ 64) ≡ guid + b * 2 ^ (i * 8)
add_byte i b guid h k g =
    ap (bit_or guid) (omega (arith, byte_fits i b h k))
    ∙ bit_or_comm guid (b * 2 ^ (i * 8))
    ∙ bit_or_join (i * 8) b guid g
    ∙ omega arith

drop-suc : (p : ℕ) (xs : List ℕ) → drop (suc p) xs ≡ drop 1 (drop p xs)
drop-suc zero xs = refl
drop-suc (suc p) [] = refl
drop-suc (suc p) (x ∷ xs) = drop-suc p xs

drop_next : (p b : ℕ) (xs ys : List ℕ) → drop p xs ≡ b ∷ ys → drop (p + 1) xs ≡ ys
drop_next p b xs ys e =
    let e' : p + 1 ≡ suc p = omega arith in ap (λ n. drop n xs) e' ∙ drop-suc p xs ∙ ap (drop 1) e

mask_head : (b : ℕ) (bs : List ℕ) → bit (mask_of (b ∷ bs)) 0 ≡ (if b == 0 then 0 else 1)
mask_head b bs = ground arith

mask_tail : (b : ℕ) (bs : List ℕ) (j : ℕ) → bit (mask_of (b ∷ bs)) (suc j) ≡ bit (mask_of bs) j
mask_tail b bs j =
    let half : ((if b == 0 then 0 else 1) + 2 * mask_of bs) / 2 ≡ mask_of bs = ground arith in
    ap (λ x. bit x j) half

at_zero : (i : ℕ) → i ≡ i + 0
at_zero i = omega arith

zero_add : (j : ℕ) → 0 + j ≡ j
zero_add j = omega arith

at_suc : (i j : ℕ) → suc i + j ≡ i + suc j
at_suc i j = omega arith

module _ (d : DataStore) (laws : DataStoreLaws d) where
  open laws use {content, content-get, tell-get, get_value}

  -- What comes next in a message.
  abbrev pub Next : d.Store → List ℕ → Type 0
  Next s xs = (d.tell s ≤ length (content s)) × (drop (d.tell s) (content s) ≡ xs)

  -- Reading one byte that is there.
  get_byte_lem :
      (b : ℕ) (xs : List ℕ) (s : d.Store)
      → Next s (b ∷ xs)
      → ((d.get 1 s).0 ≡ b) × Next (d.get 1 s).1 xs × Reads d laws 1 s (d.get 1 s).1
  get_byte_lem b xs s (inside, e) =
      let fits : d.tell s + 1 ≤ length (content s) =
        omega (arith, ap length e, length-drop (d.tell s) (content s)) in
      let place : d.tell (d.get 1 s).1 ≡ d.tell s + 1 = tell-get 1 s ∙ ground (arith, fits) in
      (
        get_value 1 s fits ∙ ap (λ l. little_endian (take 1 l)) e ∙ omega arith,
        (
          omega (arith, fits, place, ap length (content-get 1 s)),
          ap (λ c. drop (d.tell (d.get 1 s).1) c) (content-get 1 s)
              ∙ ap (λ p. drop p (content s)) place
              ∙ drop_next (d.tell s) b (content s) xs e,
        ),
        Reads-get d laws 1 s,
      )

  guid_byte_skip :
      (mask i g : ℕ) (s : d.Store) → (bit mask i == 0) ≡ true → guid_byte d mask i g s ≡ (g, s)
  unfolding guid_byte
  guid_byte_skip mask i g s e = rw (test_bit_left i mask, e) refl

  guid_byte_read :
      (mask i g : ℕ) (s : d.Store)
      → (bit mask i == 0) ≡ false
      → guid_byte d mask i g s ≡ (bit_or g ((d.get 1 s).0 * 2 ^ (i * 8) % 2 ^ 64), (d.get 1 s).1)
  unfolding guid_byte
  guid_byte_read mask i g s e = rw (test_bit_left i mask, e) refl

  guid_bytes_skip :
      (n mask i g : ℕ) (s : d.Store)
      → (bit mask i == 0) ≡ true
      → guid_bytes d (suc n) mask i g s ≡ guid_bytes d n mask (suc i) g s
  unfolding guid_bytes
  guid_bytes_skip n mask i g s e =
      ap (λ p. guid_bytes d n mask (suc i) p.0 p.1) (guid_byte_skip mask i g s e)

  guid_bytes_read :
      (n mask i g : ℕ) (s : d.Store)
      → (bit mask i == 0) ≡ false
      → guid_bytes d (suc n) mask i g s
        ≡ guid_bytes d n mask
            (suc i)
            (bit_or g ((d.get 1 s).0 * 2 ^ (i * 8) % 2 ^ 64))
            (d.get 1 s).1
  unfolding guid_bytes
  guid_bytes_read n mask i g s e =
      ap (λ p. guid_bytes d n mask (suc i) p.0 p.1) (guid_byte_read mask i g s e)

  guid_bytes_lem :
      (bs : List ℕ) (mask i g : ℕ) (s : d.Store) (rest : List ℕ)
      → All (λ b. b < 256) bs
      → i + length bs ≡ 8
      → g < 2 ^ (i * 8)
      → ((j : ℕ) → bit mask (i + j) ≡ bit (mask_of bs) j)
      → Next s (nonzero bs ++ rest)
      → ((guid_bytes d (length bs) mask i g s).0 ≡ g + little_endian bs * 2 ^ (i * 8))
        × Next (guid_bytes d (length bs) mask i g s).1 rest
        × Reads d laws (length (nonzero bs)) s (guid_bytes d (length bs) mask i g s).1
  unfolding guid_bytes
  guid_bytes_lem [] mask i g s rest ok n h m e =
      (omega arith, e, record { contents = refl; place = ground (arith, e.0) })
  guid_bytes_lem (b ∷ bs) mask i g s rest ok n h m e =
      let here : bit mask i ≡ (if b == 0 then 0 else 1) =
        ap (bit mask) (at_zero i) ∙ m 0 ∙ mask_head b bs in
      let later : (j : ℕ) → bit mask (suc i + j) ≡ bit (mask_of bs) j =
        λ j. ap (bit mask) (at_suc i j) ∙ m (suc j) ∙ mask_tail b bs j in
      let wider : g < 2 ^ (suc i * 8) = omega (arith, pow_bytes i, h) in
      elim (Bool-cases (b == 0)) [
        | inl zero_byte ↦
            let next : Next s (nonzero bs ++ rest) = rw zero_byte at e in
            let (value, after, reads) =
              guid_bytes_lem bs mask (suc i) g s rest ok.1 (omega (arith, n)) wider later next in
            rw (guid_bytes_skip (length bs) mask i g s (ground (arith, here, zero_byte)), zero_byte)
              (
                value ∙ shift_skip i b g (little_endian bs) (ground (arith, zero_byte)),
                after,
                reads,
              )
        | inr byte ↦
            let e' : Next s (b ∷ nonzero bs ++ rest) = rw byte at e in
            let (value, next, reads) = get_byte_lem b (nonzero bs ++ rest) s e' in
            let sum : bit_or g ((d.get 1 s).0 * 2 ^ (i * 8) % 2 ^ 64) ≡ g + b * 2 ^ (i * 8) =
              ap (λ v. bit_or g (v * 2 ^ (i * 8) % 2 ^ 64)) value
              ∙ add_byte i b g (omega (arith, n)) ok.0 h in
            let (total, after, more) =
              guid_bytes_lem bs mask (suc i) (g + b * 2 ^ (i * 8)) (d.get 1 s).1 rest ok.1
                (omega (arith, n)) (byte_room i b g ok.0 h) later next in
            rw (guid_bytes_read (length bs) mask i g s (ground (arith, here, byte)), sum, byte)
              (
                total ∙ shift_value i b g (little_endian bs),
                after,
                Reads-suc d laws (length (nonzero bs)) s (d.get 1 s).1 _ reads more,
              )
      ]

  -- A message that goes on with the mask of a GUID's eight bytes and its bytes that are not zero is
  -- read as that GUID, and read to what follows.
  pub get_guid-packed :
      (bs rest : List ℕ) (s : d.Store)
      → All (λ b. b < 256) bs
      → length bs ≡ 8
      → d.tell s ≤ length (content s)
      → drop (d.tell s) (content s) ≡ mask_of bs ∷ nonzero bs ++ rest
      → ((get_guid d s).0 ≡ little_endian bs)
        × (drop (d.tell (get_guid d s).1) (content (get_guid d s).1) ≡ rest)
        × (d.tell (get_guid d s).1 ≡ d.tell s + suc (length (nonzero bs)))
  unfolding get_guid
  get_guid-packed bs rest s ok n inside e =
      let (mask, next, read) = get_byte_lem (mask_of bs) (nonzero bs ++ rest) s (inside, e) in
      let digits : (j : ℕ) → bit (d.get 1 s).0 (0 + j) ≡ bit (mask_of bs) j =
        λ j. ap (λ m. bit m (0 + j)) mask ∙ ap (bit (mask_of bs)) (zero_add j) in
      let (value, after, reads) = rw n at (
        guid_bytes_lem bs (d.get 1 s).0 0 0 (d.get 1 s).1 rest ok (omega (arith, n)) (omega arith)
          digits next) in
      let all =
        Reads-suc d laws (length (nonzero bs)) s (d.get 1 s).1 (get_guid d s).1 read reads in
      (value ∙ omega arith, after.1, ground (arith, all.place, after.0, ap length all.contents))
