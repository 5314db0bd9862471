-- ===== src/Time/WowTime/Tests.antt =====
-- Packed times, and the setters of the time of day.
use whoa.Base.{◌≡◌, refl, arith}
use whoa.Base.Int.{pos, minus_one}
use whoa.Time.WowTime.{
  WowTime, unset, encode_time, decode_time, decode_field, get_hour_and_minutes, set_minutes,
  set_hour_and_minutes,
}
use whoa.Time.WowTime.Packed.{decode_time-encode_time, encode_time-decode_time}
use whoa.Time.WowTime.Clock.{get_hour_and_minutes-set_minutes, set_hour_and_minutes_lem}

-- 2008-11-13, 23:59, a Thursday.
abbrev eve : WowTime
eve = record {
  minute = pos 59;
  hour = pos 23;
  weekday = pos 4;
  monthday = pos 12;
  month = pos 10;
  year = pos 8;
  flags = pos 0;
  holiday_offset = pos 0;
}

encode_eve : encode_time eve ≡ 0x8a325fb
unfolding encode_time
encode_eve = refl

-- Five bits of ones in the year mean "any".
decode_any_year : (decode_time 0x1f000000 unset).year ≡ minus_one
unfolding decode_time
decode_any_year = refl

decode_time-encode_time_example : decode_time (encode_time eve) unset ≡ eve
unfolding whoa.Time.WowTime.and_mask
decode_time-encode_time_example = decode_time-encode_time eve unset (omega arith)

encode_time-decode_time_example : encode_time (decode_time 0x88a325fb unset) ≡ 0x8a325fb
unfolding decode_field decode_time
encode_time-decode_time_example = encode_time-decode_time 0x88a325fb unset (omega arith)

get_hour_and_minutes-set_minutes_example :
    get_hour_and_minutes (set_minutes (pos 754) eve) ≡ pos 754
get_hour_and_minutes-set_minutes_example = get_hour_and_minutes-set_minutes 754 eve (omega arith)

set_hour_and_minutes_lem_example : set_hour_and_minutes 24 0 eve ≡ (pos 0, eve)
set_hour_and_minutes_lem_example = set_hour_and_minutes_lem 24 0 eve
