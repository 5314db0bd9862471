-- ===== src/Time/WowTime/Packed.antt =====
-- WowDecodeTime and WowEncodeTime are inverse to one another, as far as the fields reach.
use whoa.Base.{
  ℕ, ◌+◌, ◌-◌, ◌*◌, ◌/◌, ◌%◌, ◌^◌, ◌<◌, bit_or, ◌≡◌, refl, arith, bit_or_disjoint, bit_and_mask,
  power_pos, Bool-cases, inl, inr, ap, ◌∙◌, ◌≤◌, ◌==◌, if◌then◌else◌,
}
use native.Mathlib.Nat.{mod-eq_of_lt}
use whoa.Base.Int.{ℤ, pos, negsuc, minus_one}
use whoa.Time.WowTime.{
  WowTime, decode_field, decode_time, and_mask, encode_time, Within, IsEncodable,
}

-- The seven fields side by side.
abbrev packed : ℕ → ℕ → ℕ → ℕ → ℕ → ℕ → ℕ → ℕ
packed mi h wd md mo y f =
    f * 2 ^ 29 + y * 2 ^ 24 + mo * 2 ^ 20 + md * 2 ^ 14 + wd * 2 ^ 11 + h * 2 ^ 6 + mi

join_fields :
    (mi h wd md mo y f : ℕ)
    → mi < 64
    → h < 32
    → wd < 8
    → md < 64
    → mo < 16
    → y < 32
    → f < 4
    → bit_or
        (bit_or
          (bit_or
            (bit_or (bit_or (bit_or (f * 2 ^ 29) (y * 2 ^ 24)) (mo * 2 ^ 20)) (md * 2 ^ 14))
            (wd * 2 ^ 11))
          (h * 2 ^ 6))
        mi
      ≡ packed mi h wd md mo y f
join_fields mi h wd md mo y f p1 p2 p3 p4 p5 p6 p7 =
    let s1 = bit_or_disjoint 29 (f * 2 ^ 29) (y * 2 ^ 24) (omega arith) (omega arith) in
    let s2 =
      bit_or_disjoint 24 (f * 2 ^ 29 + y * 2 ^ 24) (mo * 2 ^ 20) (omega arith) (omega arith) in
    let s3 =
      bit_or_disjoint 20 (f * 2 ^ 29 + y * 2 ^ 24 + mo * 2 ^ 20) (md * 2 ^ 14) (omega arith)
        (omega arith) in
    let s4 =
      bit_or_disjoint 14 (f * 2 ^ 29 + y * 2 ^ 24 + mo * 2 ^ 20 + md * 2 ^ 14) (wd * 2 ^ 11)
        (omega arith) (omega arith) in
    let s5 =
      bit_or_disjoint 11 (f * 2 ^ 29 + y * 2 ^ 24 + mo * 2 ^ 20 + md * 2 ^ 14 + wd * 2 ^ 11)
        (h * 2 ^ 6) (omega arith) (omega arith) in
    let s6 =
      bit_or_disjoint 6
        (f * 2 ^ 29 + y * 2 ^ 24 + mo * 2 ^ 20 + md * 2 ^ 14 + wd * 2 ^ 11 + h * 2 ^ 6) mi
        (omega arith) (omega arith) in
    rw (s1, s2, s3, s4, s5, s6)

-- What the decoder makes of the digits `x` of a field.
abbrev from_digits : ℕ → ℕ → ℤ
from_digits x mask = if x == mask then minus_one else pos x

decode_field-eq :
    (k value shift x : ℕ)
    → value / 2 ^ shift % 2 ^ k ≡ x
    → decode_field value shift (2 ^ k - 1) ≡ from_digits x (2 ^ k - 1)
unfolding decode_field
decode_field-eq k value shift x e = rw (bit_and_mask k (value / 2 ^ shift), e)

and_mask-from_digits : (k x : ℕ) → x < 2 ^ k → and_mask (from_digits x (2 ^ k - 1)) (2 ^ k - 1) ≡ x
unfolding and_mask
and_mask-from_digits k x h = elim (Bool-cases (x == 2 ^ k - 1)) [
  | inl full ↦
      rw full (ground (arith, bit_and_mask k 0, power_pos k, mod-eq_of_lt {n = 0} {m = 2 ^ k}))
  | inr part ↦ rw part (bit_and_mask k x ∙ mod-eq_of_lt h)
]

-- A decoded field, masked again, is the field's digits.
and_mask-decode_field :
    (k value shift : ℕ)
    → and_mask (decode_field value shift (2 ^ k - 1)) (2 ^ k - 1) ≡ value / 2 ^ shift % 2 ^ k
and_mask-decode_field k value shift =
    ap (λ z. and_mask z (2 ^ k - 1)) (decode_field-eq k value shift _ refl)
    ∙ and_mask-from_digits k _ (omega (arith, power_pos k))

-- A value whose decoded fields pass the assertions of WowEncodeTime survives decoding and encoding;
-- the top bit is dropped.
pub encode_time-decode_time :
    (value : ℕ) (t : WowTime)
    → IsEncodable (decode_time value t)
    → encode_time (decode_time value t) ≡ value % 2 ^ 31
unfolding encode_time decode_time
encode_time-decode_time value t passes =
    rw
      (
        and_mask-decode_field 6 value 0,
        and_mask-decode_field 5 value 6,
        and_mask-decode_field 3 value 11,
        and_mask-decode_field 6 value 14,
        and_mask-decode_field 4 value 20,
        and_mask-decode_field 5 value 24,
        and_mask-decode_field 2 value 29,
        join_fields (value / 2 ^ 0 % 64) (value / 2 ^ 6 % 32) (value / 2 ^ 11 % 8)
            (value / 2 ^ 14 % 64) (value / 2 ^ 20 % 16) (value / 2 ^ 24 % 32) (value / 2 ^ 29 % 4)
            (omega arith) (omega arith) (omega arith) (omega arith) (omega arith) (omega arith)
            (omega arith),
      )
      (omega arith)

and_mask-lt : (k : ℕ) (z : ℤ) → and_mask z (2 ^ k - 1) < 2 ^ k
unfolding and_mask
and_mask-lt k (pos n) = omega (arith, bit_and_mask k n, power_pos k)
and_mask-lt k (negsuc n) = omega (arith, power_pos k)

-- A field that cannot fill its mask is read back as it was.
from_digits-and_mask :
    (k bound : ℕ) (z : ℤ)
    → Within z bound
    → bound < 2 ^ k
    → from_digits (and_mask z (2 ^ k - 1)) (2 ^ k - 1) ≡ z
unfolding and_mask
from_digits-and_mask k bound (pos n) w h =
    ground (arith, bit_and_mask k n, mod-eq_of_lt {n = n} {m = 2 ^ k})
from_digits-and_mask k bound (negsuc n) w h = ground (arith, bit_and_mask k n, power_pos k, w)

-- One that can is -1 where it does.
from_digits_full :
    (k bound : ℕ) (z : ℤ)
    → Within z bound
    → bound ≤ 2 ^ k
    → from_digits (and_mask z (2 ^ k - 1)) (2 ^ k - 1)
      ≡ (if and_mask z (2 ^ k - 1) == 2 ^ k - 1 then minus_one else z)
unfolding and_mask
from_digits_full k bound (pos n) w h =
    ground (arith, bit_and_mask k n, mod-eq_of_lt {n = n} {m = 2 ^ k})
from_digits_full k bound (negsuc n) w h = ground (arith, bit_and_mask k n, power_pos k, w)

encode_time-packed :
    (t : WowTime)
    → encode_time t
      ≡ packed
          (and_mask t.minute 63)
          (and_mask t.hour 31)
          (and_mask t.weekday 7)
          (and_mask t.monthday 63)
          (and_mask t.month 15)
          (and_mask t.year 31)
          (and_mask t.flags 3)
unfolding encode_time
encode_time-packed t =
    join_fields _ _ _ _ _ _ _ (and_mask-lt 6 t.minute) (and_mask-lt 5 t.hour)
      (and_mask-lt 3 t.weekday) (and_mask-lt 6 t.monthday) (and_mask-lt 4 t.month)
      (and_mask-lt 5 t.year) (and_mask-lt 2 t.flags)

-- The digits of each field are where they were put.
fields_apart :
    (mi h wd md mo y f : ℕ)
    → mi < 64
    → h < 32
    → wd < 8
    → md < 64
    → mo < 16
    → y < 32
    → f < 4
    → let v = packed mi h wd md mo y f in
      (v / 2 ^ 0 % 64 ≡ mi)
      × (v / 2 ^ 6 % 32 ≡ h)
      × (v / 2 ^ 11 % 8 ≡ wd)
      × (v / 2 ^ 14 % 64 ≡ md)
      × (v / 2 ^ 20 % 16 ≡ mo)
      × (v / 2 ^ 24 % 32 ≡ y)
      × (v / 2 ^ 29 % 4 ≡ f)
fields_apart mi h wd md mo y f p0 p1 p2 p3 p4 p5 p6 = omega arith

-- An encodable time survives encoding and decoding, but for the values that fill a whole field.
pub decode_time-encode_time :
    (t old : WowTime)
    → IsEncodable t
    → decode_time (encode_time t) old ≡ record t {
      year = if and_mask t.year 31 == 31 then minus_one else t.year;
      flags = if and_mask t.flags 3 == 3 then minus_one else t.flags;
      holiday_offset = old.holiday_offset;
    }
unfolding decode_time
decode_time-encode_time t old v =
    let apart =
      fields_apart _ _ _ _ _ _ _ (and_mask-lt 6 t.minute) (and_mask-lt 5 t.hour)
        (and_mask-lt 3 t.weekday) (and_mask-lt 6 t.monthday) (and_mask-lt 4 t.month)
        (and_mask-lt 5 t.year) (and_mask-lt 2 t.flags) in
    rw (
      encode_time-packed t,
      decode_field-eq 6 _ 0 _ apart.0 ∙ from_digits-and_mask 6 60 t.minute v.minute (omega arith),
      decode_field-eq 5 _ 6 _ apart.1 ∙ from_digits-and_mask 5 24 t.hour v.hour (omega arith),
      decode_field-eq 3 _ 11 _ apart.2 ∙ from_digits-and_mask 3 7 t.weekday v.weekday (omega arith),
      decode_field-eq 6 _ 14 _ apart.3
          ∙ from_digits-and_mask 6 32 t.monthday v.monthday (omega arith),
      decode_field-eq 4 _ 20 _ apart.4 ∙ from_digits-and_mask 4 12 t.month v.month (omega arith),
      decode_field-eq 5 _ 24 _ apart.5 ∙ from_digits_full 5 32 t.year v.year (omega arith),
      decode_field-eq 2 _ 29 _ apart.6 ∙ from_digits_full 2 4 t.flags v.flags (omega arith),
    )
