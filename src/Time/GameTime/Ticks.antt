-- ===== src/Time/GameTime/Ticks.antt =====
-- What a tick, a run of ticks and a set of the game clock do to the time of day.
use whoa.Base.{
  ℕ, zero, suc, ◌+◌, ◌-◌, ◌*◌, ◌/◌, ◌%◌, ◌^◌, ◌≤◌, ◌<◌, ◌≡◌, refl, ◌∙◌, ap, arith, true, false,
  some, ltb, ◌==◌, if◌then◌else◌, lt→ltb,
}
use native.Mathlib.Numerals.{add-one}
use whoa.Base.Int.{pos, ◌+ℤ◌, remainder}
use whoa.Time.WowTime.{WowTime, CLibrary, get_hour_and_minutes, set_minutes, add_days}
use whoa.Time.WowTime.Clock.{IsAt, get_hour_and_minutes_set, set_minutes-IsAt, add_days-IsAt}
use whoa.Time.GameTime.{Float, GameTime, tick_minute, tick_while}

-- What the clock relies on of floats from 0 to 2^24: comparison with 1 looks at the whole part, and
-- taking a whole number off is exact.
pub record FloatLaws (fl : Float) : Type 1 where
  pub IsSmall : fl.F → Type 0
  pub one-eq : fl.one ≡ fl.of_nat 1
  pub ge_one : (x : fl.F) → IsSmall x → fl.ge x fl.one ≡ ltb 0 (fl.to_u32 x)
  pub sub-IsSmall :
      (x : fl.F) (n : ℕ) → IsSmall x → n ≤ fl.to_u32 x → IsSmall (fl.sub x (fl.of_nat n))
  pub to_u32-sub :
      (x : fl.F) (n : ℕ)
      → IsSmall x
      → n ≤ fl.to_u32 x
      → fl.to_u32 (fl.sub x (fl.of_nat n)) ≡ fl.to_u32 x - n

-- The minute of the day n minutes after h:m, as an hour and a minute.
abbrev pub IsAfter : ℕ → ℕ → ℕ → WowTime → Type 0
IsAfter n h m t = IsAt ((60 * h + m + n) % 1440 / 60) ((60 * h + m + n) % 1440 % 60) t

next_minutes :
    (h m : ℕ) (t : WowTime)
    → IsAt h m t
    → remainder (get_hour_and_minutes t +ℤ pos 1) 1440 ≡ pos ((60 * h + m + 1) % 1440)
unfolding ◌+ℤ◌
next_minutes h m t v = rw (get_hour_and_minutes_set h m t v) (ground arith)

module _ (fl : Float) (lib : CLibrary) where
  -- A tick moves a set time of day one minute on, round midnight; the date is moved by one day
  -- exactly at midnight and left alone otherwise.
  pub tick_minute_lem :
      (now h m : ℕ) (g : GameTime fl)
      → IsAt h m g.time
      → let n = (60 * h + m + 1) % 1440 in
        let g' = tick_minute fl lib now g in
        IsAfter 1 h m g'.time
        × (g'.time ≡ (
            if n == 0
            then add_days lib (pos 1) false (set_minutes (pos n) g.time)
            else set_minutes (pos n) g.time))
  unfolding tick_minute
  tick_minute_lem now h m g v =
      let n = (60 * h + m + 1) % 1440 in
      let set = set_minutes-IsAt n g.time (omega arith) in
      rw (next_minutes h m g.time v) (
        ground
          (arith, set, add_days-IsAt lib (pos 1) (n / 60) (n % 60) (set_minutes (pos n) g.time)))

  module _ (laws : FloatLaws fl) where
    open laws use {IsSmall, one-eq, ge_one, sub-IsSmall, to_u32-sub}

    -- What is left after n ticks of `tick_while`.
    pub record Ticked (n h m : ℕ) (g g' : GameTime fl) : Type 0 where
      pub time : IsAfter n h m g'.time
      pub spent : fl.to_u32 g'.minutes_this_tick ≡ 0
      pub elapsed : g'.game_minutes_elapsed % 2 ^ 32 ≡ (g.game_minutes_elapsed + n) % 2 ^ 32
      pub differential : g'.time_differential ≡ g.time_differential

    step-IsSmall :
        (x : fl.F)
        → IsSmall x
        → 1 ≤ fl.to_u32 x
        → IsSmall (fl.sub x fl.one) × (fl.to_u32 (fl.sub x fl.one) ≡ fl.to_u32 x - 1)
    step-IsSmall x s h = rw one-eq (sub-IsSmall x 1 s h, to_u32-sub x 1 s h)

    IsAfter-IsAfter :
        (n h m : ℕ) (t : WowTime)
        → let k = (60 * h + m + 1) % 1440 in IsAfter n (k / 60) (k % 60) t → IsAfter (n + 1) h m t
    IsAfter-IsAfter n h m t v =
        let k = (60 * h + m + 1) % 1440 in
        let e : (60 * (k / 60) + k % 60 + n) % 1440 ≡ (60 * h + m + (n + 1)) % 1440 = omega arith in
        rw (← e) v

    elapsed-tick_minute :
        (now : ℕ) (g : GameTime fl)
        → (tick_minute fl lib now g).game_minutes_elapsed ≡ (g.game_minutes_elapsed + 1) % 2 ^ 32
    unfolding tick_minute
    elapsed-tick_minute now g = refl

    differential-tick_minute :
        (now : ℕ) (g : GameTime fl)
        → (tick_minute fl lib now g).time_differential ≡ g.time_differential
    unfolding tick_minute
    differential-tick_minute now g = refl

    minutes-tick_minute :
        (now : ℕ) (g : GameTime fl)
        → (tick_minute fl lib now g).minutes_this_tick ≡ g.minutes_this_tick
    unfolding tick_minute
    minutes-tick_minute now g = refl

    tick_while_step :
        (clock : ℕ → ℕ) (i fuel : ℕ) (g : GameTime fl)
        → fl.ge g.minutes_this_tick fl.one ≡ true
        → tick_while fl lib clock i (suc fuel) g
          ≡ tick_while fl lib clock (i + 1) fuel (
              tick_minute fl lib
                (clock i)
                (record g { minutes_this_tick = fl.sub g.minutes_this_tick fl.one }))
    unfolding tick_while
    tick_while_step clock i fuel g more = rw more

    -- With fuel above the whole minutes to go, the loop ends after exactly that many ticks.
    pub tick_while_lem :
        (clock : ℕ → ℕ) (i fuel n h m : ℕ) (g : GameTime fl)
        → IsAt h m g.time
        → IsSmall g.minutes_this_tick
        → fl.to_u32 g.minutes_this_tick ≡ n
        → n < fuel
        → (g' : GameTime fl) × (tick_while fl lib clock i fuel g ≡ some g') × Ticked n h m g g'
    unfolding tick_while
    tick_while_lem clock i zero n h m g v s e b = absurd (omega arith)
    tick_while_lem clock i (suc fuel) zero h m g v s e b = (
      g,
      rw (ge_one g.minutes_this_tick s) (ground arith),
      record {
        time =
            let same : (60 * h + m + 0) % 1440 ≡ 60 * h + m = omega arith in
            record {
              hour = rw same (v.hour ∙ ap pos (omega arith));
              minute = rw same (v.minute ∙ ap pos (omega arith));
              hour_in = omega arith;
              minute_in = omega arith;
            };
        spent = e;
        elapsed = omega arith;
        differential = refl;
      },
    )
    tick_while_lem clock i (suc fuel) (suc n) h m g v s e b =
        let more : fl.ge g.minutes_this_tick fl.one ≡ true =
          ge_one g.minutes_this_tick s ∙ lt→ltb 0 _ (omega arith) in
        let less = step-IsSmall g.minutes_this_tick s (omega arith) in
        let g0 : GameTime fl = record g { minutes_this_tick = fl.sub g.minutes_this_tick fl.one } in
        let g1 = tick_minute fl lib (clock i) g0 in
        let k = (60 * h + m + 1) % 1440 in
        let (g', run, after) =
          tick_while_lem clock (i + 1) fuel n (k / 60) (k % 60) g1
            (tick_minute_lem (clock i) h m g0 v).0 (rw (minutes-tick_minute (clock i) g0) less.0)
            (rw (minutes-tick_minute (clock i) g0) (omega (arith, less.1))) (omega arith) in
        (
          g',
          tick_while_step clock i fuel g more ∙ run,
          record {
            time = rw (← add-one n) (IsAfter-IsAfter n h m g'.time after.time);
            spent = after.spent;
            elapsed = omega (arith, after.elapsed, elapsed-tick_minute (clock i) g0);
            differential = after.differential ∙ differential-tick_minute (clock i) g0;
          },
        )
