-- ===== src/Time/WowTime/Clock.antt =====
-- The hour and the minute of a WowTime as minutes of the day.
use whoa.Base.{ℕ, ◌+◌, ◌*◌, ◌/◌, ◌%◌, ◌<◌, ◌≡◌, refl, arith, if◌then◌else◌, ltb, ◌&&◌, false}
use whoa.Base.Int.{ℤ, pos, ◌+ℤ◌}
use whoa.Time.WowTime.{
  WowTime, CLibrary, get_hour_and_minutes, set_minutes, set_hour_and_minutes, add_days,
}

-- The time of day is set, to hour h and minute m.
pub record IsAt (h m : ℕ) (t : WowTime) : Type 0 where
  pub hour : t.hour ≡ pos h
  pub minute : t.minute ≡ pos m
  pub hour_in : h < 24
  pub minute_in : m < 60

pub get_hour_and_minutes_set :
    (h m : ℕ) (t : WowTime) → IsAt h m t → get_hour_and_minutes t ≡ pos (60 * h + m)
unfolding get_hour_and_minutes ◌+ℤ◌
get_hour_and_minutes_set h m t v = rw (v.hour, v.minute) (ground arith)

pub set_minutes-IsAt :
    (n : ℕ) (t : WowTime) → n < 1440 → IsAt (n / 60) (n % 60) (set_minutes (pos n) t)
unfolding set_minutes
set_minutes-IsAt n t h = record {
  hour = refl;
  minute = refl;
  hour_in = omega arith;
  minute_in = omega arith;
}

-- A time of day below 1440 minutes is read back as it was set.
pub get_hour_and_minutes-set_minutes :
    (n : ℕ) (t : WowTime) → n < 1440 → get_hour_and_minutes (set_minutes (pos n) t) ≡ pos n
get_hour_and_minutes-set_minutes n t h =
    rw (get_hour_and_minutes_set (n / 60) (n % 60) _ (set_minutes-IsAt n t h)) (ground arith)

-- The checked setter: it reports success exactly on a time of day, and then sets it; on any other
-- input it reports 0 and changes nothing.
pub set_hour_and_minutes_lem :
    (h m : ℕ) (t : WowTime)
    → set_hour_and_minutes h m t ≡ (
        if ltb h 24 && ltb m 60
        then (pos 1, record t { hour = pos h; minute = pos m })
        else (pos 0, t))
unfolding set_hour_and_minutes
set_hour_and_minutes_lem h m t = ground arith

-- `AddDays` without the time leaves the time of day.
pub add_days-IsAt :
    (lib : CLibrary) (days : ℤ) (h m : ℕ) (t : WowTime)
    → IsAt h m t
    → IsAt h m (add_days lib days false t)
unfolding add_days
add_days-IsAt lib days h m t v = ground arith
