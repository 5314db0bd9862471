-- ===== src/Time/GameTime/Tests.antt =====
-- The game clock with fixed-point minutes in place of floats.
use whoa.Base.{
  ℕ, ◌+◌, ◌-◌, ◌*◌, ◌/◌, ◌%◌, ◌^◌, ◌<◌, ◌≡◌, refl, arith, true, false, some, none, ltb, leb,
}
use whoa.Base.Int.{pos, minus_one}
use whoa.Time.WowTime.{WowTime, CLibrary}
use whoa.Time.WowTime.Clock.{IsAt}
use whoa.Time.GameTime.{Float, GameTime, tick_minute, set_time, update}
use whoa.Time.GameTime.Ticks.{FloatLaws, IsAfter, tick_minute_lem}
use whoa.Time.GameTime.Set.{time-set_time}
use whoa.Time.GameTime.Update.{update_lem}

-- 2008-11-13, 23:59, a Thursday.
abbrev eve : WowTime
eve = record {
  minute = pos 59;
  hour = pos 23;
  weekday = pos 4;
  monthday = pos 12;
  month = pos 10;
  year = pos 8;
  flags = pos 0;
  holiday_offset = pos 0;
}

-- Sixtieths of a minute stand for floats.
abbrev sixtieths : Float
sixtieths = record {
  F = ℕ;
  zero_f = 0;
  one = 60;
  min_speed = 1;
  max_speed = 3600;
  add = ◌+◌;
  sub = ◌-◌;
  mul = λ a b. a * b / 60;
  lt = ltb;
  ge = λ a b. leb b a;
  to_u32 = λ a. a / 60;
  of_nat = λ n. n * 60;
}

ge_sixty : (x : ℕ) → leb 60 x ≡ ltb 0 (x / 60)
ge_sixty x = ground arith

sixtieths_laws : FloatLaws sixtieths
sixtieths_laws = record {
  IsSmall = λ x. x < 60 * 2 ^ 24;
  one-eq = refl;
  ge_one = λ x s. ge_sixty x;
  sub-IsSmall = λ x n s h. omega arith;
  to_u32-sub = λ x n s h. omega arith;
}

abbrev no_calendar : CLibrary
no_calendar = record { mktime = λ t. minus_one; localtime = λ t. none }

abbrev clock_at_eve : GameTime sixtieths
clock_at_eve = record {
  time = eve;
  last_tick = 0;
  time_bias = pos 0;
  date_bias = pos 0;
  game_minutes_elapsed = 7;
  minutes_per_second = 60;
  minutes_this_tick = 30;
  time_differential = 2;
  last_tick_minute = 0;
  uint40 = 0;
  day_progression = 0;
}

eve-IsAt : IsAt 23 59 eve
eve-IsAt = record { hour = refl; minute = refl; hour_in = omega arith; minute_in = omega arith }

tick_minute_lem_example : IsAt 0 0 (tick_minute sixtieths no_calendar 5 clock_at_eve).time
tick_minute_lem_example = (tick_minute_lem sixtieths no_calendar 5 23 59 clock_at_eve eve-IsAt).0

time-set_time_example :
    (set_time sixtieths no_calendar 5 eve true clock_at_eve).time
    ≡ (set_time sixtieths no_calendar 5 eve false clock_at_eve).time
unfolding set_time
time-set_time_example =
    time-set_time sixtieths no_calendar 5 23 59 eve clock_at_eve eve-IsAt (omega arith)

-- Five seconds at a minute a second: five and a half minutes, of which the differential takes two.
update_lem_example :
    (g' : GameTime sixtieths) × (update sixtieths no_calendar (λ i. i) 8 300 clock_at_eve ≡ some g')
    × IsAfter 3 23 59 g'.time
    × (g'.minutes_this_tick / 60 ≡ 0)
    × (g'.time_differential ≡ 0)
    × (g'.game_minutes_elapsed % 2 ^ 32 ≡ 10)
unfolding sixtieths_laws
update_lem_example =
    update_lem sixtieths no_calendar sixtieths_laws (λ i. i) 8 23 59 300 clock_at_eve eve-IsAt
      (omega arith) (omega arith)
