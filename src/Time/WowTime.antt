-- ===== src/Time/WowTime.antt =====
-- src/util/time/WowTime.cpp. An int32_t field is an integer, -1 for "any".
pub mod Packed
pub mod Clock
mod Tests
use mathlib.Core.Path.{◌≡◌}
use whoa.Base.{
  ℕ, suc, ◌+◌, ◌-◌, ◌*◌, ◌/◌, ◌%◌, ◌^◌, ◌<◌, bit_and, bit_or, Bool, true, false, ◌||◌, Option, none,
  some, ltb, leb, ◌==◌, if◌then◌else◌,
}
use whoa.Base.Int.{ℤ, pos, negsuc, ◌+ℤ◌, ◌-ℤ◌, ltb_ℤ, ◌≤ℤ◌, minus_one, scale, quotient, remainder}

pub record WowTime : Type 0 where
  pub minute : ℤ
  pub hour : ℤ
  pub weekday : ℤ
  pub monthday : ℤ
  pub month : ℤ
  pub year : ℤ
  pub flags : ℤ
  pub holiday_offset : ℤ

-- The member initialisers.
abbrev pub unset : WowTime
unset = record {
  minute = minus_one;
  hour = minus_one;
  weekday = minus_one;
  monthday = minus_one;
  month = minus_one;
  year = minus_one;
  flags = pos 0;
  holiday_offset = pos 0;
}

-- One field of `WowDecodeTime`: digits `shift` and up under a mask, the mask itself read as -1.
pub decode_field : ℕ → ℕ → ℕ → ℤ
decode_field value shift mask =
    let x = bit_and (value / 2 ^ shift) mask in if x == mask then minus_one else pos x

-- The seven out-parameters; `none` is a null pointer.
pub record Targets : Type 0 where
  pub minute : Option ℤ
  pub hour : Option ℤ
  pub weekday : Option ℤ
  pub monthday : Option ℤ
  pub month : Option ℤ
  pub year : Option ℤ
  pub flags : Option ℤ

abbrev pub store : Option ℤ → ℤ → Option ℤ
store none v = none
store (some _) v = some v

pub decode_fields : ℕ → Targets → Targets
unfolding decode_field
decode_fields value p = record {
  minute = store p.minute (decode_field value 0 63);
  hour = store p.hour (decode_field value 6 31);
  weekday = store p.weekday (decode_field value 11 7);
  monthday = store p.monthday (decode_field value 14 63);
  month = store p.month (decode_field value 20 15);
  year = store p.year (decode_field value 24 31);
  flags = store p.flags (decode_field value 29 3);
}

abbrev pub pointed : Option ℤ → ℤ → ℤ
pointed none old = old
pointed (some v) old = v

-- `WowDecodeTime(uint32_t, WowTime*)` passes the addresses of the members.
pub decode_time : ℕ → WowTime → WowTime
unfolding decode_fields
decode_time value time = record time {
  minute = pointed out.minute time.minute;
  hour = pointed out.hour time.hour;
  weekday = pointed out.weekday time.weekday;
  monthday = pointed out.monthday time.monthday;
  month = pointed out.month time.month;
  year = pointed out.year time.year;
  flags = pointed out.flags time.flags;
}
  where
    out : Targets
    out = decode_fields value (record {
      minute = some time.minute;
      hour = some time.hour;
      weekday = some time.weekday;
      monthday = some time.monthday;
      month = some time.month;
      year = some time.year;
      flags = some time.flags;
    })

-- `x & mask` of an int32_t in two's complement, for a mask of low digits.
pub and_mask : ℤ → ℕ → ℕ
and_mask (pos n) mask = bit_and n mask
and_mask (negsuc n) mask = mask - bit_and n mask

-- The packing of `WowEncodeTime`, for fields that pass its assertions, which are `IsEncodable`.
pub encode_fields : ℤ → ℤ → ℤ → ℤ → ℤ → ℤ → ℤ → ℕ
unfolding and_mask
encode_fields minute hour weekday monthday month year flags =
    bit_or
      (bit_or
        (bit_or
          (bit_or
            (bit_or (bit_or (and_mask flags 3 * 2 ^ 29) (and_mask year 31 * 2 ^ 24))
              (and_mask month 15 * 2 ^ 20))
            (and_mask monthday 63 * 2 ^ 14))
          (and_mask weekday 7 * 2 ^ 11))
        (and_mask hour 31 * 2 ^ 6))
      (and_mask minute 63)

pub encode_time : WowTime → ℕ
unfolding encode_fields
encode_time t = encode_fields t.minute t.hour t.weekday t.monthday t.month t.year t.flags

-- The assertions at the head of `WowEncodeTime`.
abbrev pub Within : ℤ → ℕ → Type 0
Within (pos n) bound = n < bound
Within (negsuc n) bound = n ≡ 0

pub record IsEncodable (t : WowTime) : Type 0 where
  pub minute : Within t.minute 60
  pub hour : Within t.hour 24
  pub weekday : Within t.weekday 7
  pub monthday : Within t.monthday 32
  pub month : Within t.month 12
  pub year : Within t.year 32
  pub flags_nonneg : pos 0 ≤ℤ t.flags
  pub flags : Within t.flags 4

-- `GetHourAndMinutes`
unfoldable pub get_hour_and_minutes : WowTime → ℤ
get_hour_and_minutes t =
    if ltb_ℤ t.hour (pos 0) || ltb_ℤ t.minute (pos 0) then pos 0 else scale 60 t.hour +ℤ t.minute

-- `SetHourAndMinutes(int32_t)`
unfoldable pub set_minutes : ℤ → WowTime → WowTime
set_minutes minutes t = record t { hour = quotient minutes 60; minute = remainder minutes 60 }

-- `SetHourAndMinutes(uint32_t, uint32_t)`
pub set_hour_and_minutes : ℕ → ℕ → WowTime → ℤ × WowTime
set_hour_and_minutes hour minutes t =
    if leb 24 hour || leb 60 minutes
    then (pos 0, t)
    else (pos 1, record t { hour = pos hour; minute = pos minutes })

-- `tm` of the C library, with the members that the code reads or writes.
pub record Tm : Type 0 where
  pub tm_min : ℤ
  pub tm_hour : ℤ
  pub tm_mday : ℤ
  pub tm_mon : ℤ
  pub tm_year : ℤ
  pub tm_wday : ℤ
  pub tm_isdst : ℤ

abbrev pub zero_tm : Tm
zero_tm = record {
  tm_min = pos 0;
  tm_hour = pos 0;
  tm_mday = pos 0;
  tm_mon = pos 0;
  tm_year = pos 0;
  tm_wday = pos 0;
  tm_isdst = pos 0;
}

-- `mktime` (its result only) and `localtime` of the C library, which returns null on failure.
pub record CLibrary : Type 0 where
  pub mktime : Tm → ℤ
  pub localtime : ℤ → Option Tm

-- The `tm` that `AddDays` hands to `mktime`.
pub to_tm : WowTime → Bool → Tm
to_tm t include_time = record {
  tm_min = if include_time then t.minute else pos 0;
  tm_hour = if include_time then t.hour else pos 0;
  tm_mday = t.monthday +ℤ pos 1;
  tm_mon = t.month;
  tm_year = t.year +ℤ pos 100;
  tm_wday = pos 0;
  tm_isdst = minus_one;
}

abbrev pub tm_or_zero : Option Tm → Tm
tm_or_zero none = zero_tm
tm_or_zero (some tm) = tm

-- The end of `AddDays`: the members set from a `tm`.
pub from_tm : WowTime → Tm → Bool → WowTime
from_tm t tm include_time = record t {
  minute = if include_time then tm.tm_min else t.minute;
  hour = if include_time then tm.tm_hour else t.hour;
  weekday = tm.tm_wday;
  monthday = tm.tm_mday -ℤ pos 1;
  month = tm.tm_mon;
  year = tm.tm_year -ℤ pos 100;
}

unfoldable pub add_days : CLibrary → ℤ → Bool → WowTime → WowTime
unfolding to_tm from_tm
add_days lib days include_time t =
    let start = lib.mktime (to_tm t include_time) +ℤ scale 86400 days in
    let moved = if include_time then start else start +ℤ pos 3600 in
    if ltb_ℤ t.year (pos 0) || ltb_ℤ t.month (pos 0) || ltb_ℤ t.monthday (pos 0)
    then t
    else from_tm t (tm_or_zero (lib.localtime moved)) include_time
