-- ===== src/Time/GameTime.antt =====
-- src/util/time/CGameTime.cpp. The clock of the operating system, the C library's calendar and
-- float arithmetic are parameters.
pub mod Ticks
pub mod Update
pub mod Set
mod Tests
use whoa.Base.{
  ℕ, zero, suc, ◌+◌, ◌-◌, ◌%◌, ◌^◌, ◌≤◌, ◌<◌, ◌≡◌, Bool, true, false, not, ◌&&◌, Option, none, some,
  ltb, ◌==◌, if◌then◌else◌, ◌↔◌,
}
use whoa.Base.Int.{ℤ, pos, ◌+ℤ◌, ◌-ℤ◌, ◌==ℤ◌, ltb_ℤ, negsuc, remainder, pos_part}
use whoa.Time.WowTime.{WowTime, CLibrary, get_hour_and_minutes, set_minutes, add_days}

-- The float operations that the game clock uses.
pub record Float : Type 1 where
  pub F : Type 0
  pub zero_f : F
  pub one : F
  pub min_speed : F
  pub max_speed : F
  pub add : F → F → F
  pub sub : F → F → F
  pub mul : F → F → F
  pub lt : F → F → Bool
  pub ge : F → F → Bool
  -- `static_cast<uint32_t>` and `static_cast<float>`
  pub to_u32 : F → ℕ
  pub of_nat : ℕ → F

pub record GameTime (fl : Float) : Type 0 where
  pub time : WowTime
  pub last_tick : ℕ
  pub time_bias : ℤ
  pub date_bias : ℤ
  pub game_minutes_elapsed : ℕ
  pub minutes_per_second : fl.F
  pub minutes_this_tick : fl.F
  pub time_differential : ℕ
  pub last_tick_minute : ℕ
  pub uint40 : ℕ
  pub day_progression : fl.F

module _ (fl : Float) (lib : CLibrary) where
  -- `GameTimeSetMinutesPerSecond`: the old speed, and the new state.
  pub set_minutes_per_second : fl.F → GameTime fl → fl.F × GameTime fl
  set_minutes_per_second speed g = (
    g.minutes_per_second,
    record g {
      minutes_per_second =
          if fl.lt fl.max_speed speed
          then fl.max_speed
          else if fl.lt speed fl.min_speed
          then fl.min_speed
          else speed;
    },
  )

  -- `TickMinute`, where `now` is what OsGetAsyncTimeMsPrecise returns.
  pub tick_minute : ℕ → GameTime fl → GameTime fl
  tick_minute now g =
      let minutes = remainder (get_hour_and_minutes g.time +ℤ pos 1) 1440 in
      let set = set_minutes minutes g.time in
      record g {
        time = if minutes ==ℤ pos 0 then add_days lib (pos 1) false set else set;
        game_minutes_elapsed = (g.game_minutes_elapsed + 1) % 2 ^ 32;
        last_tick_minute = now;
        uint40 = 1;
        day_progression = fl.add g.minutes_this_tick (fl.of_nat (pos_part minutes));
      }

  -- The biases of `GameTimeSetTime`.
  pub biased : ℤ → ℤ → WowTime → WowTime
  biased time_bias date_bias t =
      let minutes = get_hour_and_minutes t +ℤ time_bias in
      let wrapped = if ltb_ℤ minutes (pos 0) then minutes +ℤ pos 1440 else remainder minutes 1440 in
      let t' = if time_bias ==ℤ pos 0 then t else set_minutes wrapped t in
      if date_bias ==ℤ pos 0 then t' else add_days lib date_bias false t'

  -- "Rewind time by exactly one minute"
  pub rewind : WowTime → WowTime
  rewind t =
      if not (t.minute ==ℤ pos 0)
      then record t { minute = t.minute -ℤ pos 1 }
      else if not (t.hour ==ℤ pos 0)
      then record t { minute = pos 59; hour = t.hour -ℤ pos 1 }
      else add_days lib (negsuc 0) false (record t { minute = pos 59; hour = pos 23 })

  -- `GameTimeSetTime`
  pub set_time : ℕ → WowTime → Bool → GameTime fl → GameTime fl
  unfolding tick_minute biased rewind
  set_time now t should_tick g =
      let t' = biased g.time_bias g.date_bias t in
      if should_tick
      then tick_minute now (record g { time = rewind t' })
      else record g { time = t' }

  -- The loop of `GameTimeUpdate`; the i-th tick reads the clock `clock i`. `none`: out of fuel.
  pub tick_while : (ℕ → ℕ) → ℕ → ℕ → GameTime fl → Option (GameTime fl)
  unfolding tick_minute
  tick_while clock i zero g = none
  tick_while clock i (suc fuel) g =
      let rest = tick_while clock (i + 1) fuel (
        tick_minute (clock i)
          (record g { minutes_this_tick = fl.sub g.minutes_this_tick fl.one })) in
      if fl.ge g.minutes_this_tick fl.one then rest else some g

  -- "Skip minute ticks for time differential"
  pub skip_differential : GameTime fl → GameTime fl
  skip_differential g =
      let whole = fl.to_u32 g.minutes_this_tick in
      let consumed = if ltb g.time_differential whole then g.time_differential else whole in
      if not (g.time_differential == 0) && fl.ge g.minutes_this_tick fl.one
      then record g {
        time_differential = g.time_differential - consumed;
        minutes_this_tick = fl.sub g.minutes_this_tick (fl.of_nat consumed);
      }
      else g

  -- `GameTimeUpdate`
  pub update : (ℕ → ℕ) → ℕ → fl.F → GameTime fl → Option (GameTime fl)
  unfolding tick_while skip_differential
  update clock fuel elapsed g = tick_while clock 0 fuel (
      skip_differential (record g {
        minutes_this_tick = fl.add g.minutes_this_tick (fl.mul g.minutes_per_second elapsed);
      }))
