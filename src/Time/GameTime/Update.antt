-- ===== src/Time/GameTime/Update.antt =====
-- GameTimeUpdate: how far an update of the game clock moves it.
use whoa.Base.{ℕ, ◌+◌, ◌-◌, ◌%◌, ◌^◌, ◌<◌, ◌≡◌, ◌∙◌, arith, min, some}
use whoa.Time.WowTime.{CLibrary}
use whoa.Time.WowTime.Clock.{IsAt}
use whoa.Time.GameTime.{Float, GameTime, skip_differential, update}
use whoa.Time.GameTime.Ticks.{FloatLaws, IsAfter, tick_while_lem}

module _ (fl : Float) (lib : CLibrary) (laws : FloatLaws fl) where
  open laws use {IsSmall, one-eq, ge_one, sub-IsSmall, to_u32-sub}

  -- What `skip_differential` leaves.
  record Skipped (g s : GameTime fl) : Type 0 where
    small : IsSmall s.minutes_this_tick
    whole :
        fl.to_u32 s.minutes_this_tick
        ≡ fl.to_u32 g.minutes_this_tick - min g.time_differential (fl.to_u32 g.minutes_this_tick)
    left :
        s.time_differential
        ≡ g.time_differential - min g.time_differential (fl.to_u32 g.minutes_this_tick)
    time : s.time ≡ g.time
    elapsed : s.game_minutes_elapsed ≡ g.game_minutes_elapsed

  skip_differential-Skipped :
      (g : GameTime fl) → IsSmall g.minutes_this_tick → Skipped g (skip_differential fl lib g)
  unfolding skip_differential
  skip_differential-Skipped g s =
      let whole = fl.to_u32 g.minutes_this_tick in
      let consumed = min g.time_differential whole in
      ground (
        arith,
        ge_one g.minutes_this_tick s,
        sub-IsSmall g.minutes_this_tick g.time_differential s,
        sub-IsSmall g.minutes_this_tick whole s,
        to_u32-sub g.minutes_this_tick g.time_differential s,
        to_u32-sub g.minutes_this_tick whole s,
      )

  -- An update by x = (minutes left over) + speed · elapsed, a small number, never runs out of a
  -- fuel above the whole part of x. Of the whole minutes of x the differential swallows as many as
  -- it has, and the clock ticks the rest; a fraction of a minute is left over.
  pub update_lem :
      (clock : ℕ → ℕ) (fuel h m : ℕ) (elapsed : fl.F) (g : GameTime fl)
      → let x = fl.add g.minutes_this_tick (fl.mul g.minutes_per_second elapsed) in
        IsAt h m g.time
        → IsSmall x
        → fl.to_u32 x < fuel
        → let skipped = min g.time_differential (fl.to_u32 x) in
          (g' : GameTime fl) × (update fl lib clock fuel elapsed g ≡ some g')
          × IsAfter (fl.to_u32 x - skipped) h m g'.time
          × (fl.to_u32 g'.minutes_this_tick ≡ 0)
          × (g'.time_differential ≡ g.time_differential - skipped)
          × (g'.game_minutes_elapsed % 2 ^ 32
              ≡ (g.game_minutes_elapsed + (fl.to_u32 x - skipped)) % 2 ^ 32)
  unfolding update
  update_lem clock fuel h m elapsed g v s b =
      let x = fl.add g.minutes_this_tick (fl.mul g.minutes_per_second elapsed) in
      let g0 : GameTime fl = record g { minutes_this_tick = x } in
      let n = fl.to_u32 x - min g.time_differential (fl.to_u32 x) in
      let sk = skip_differential-Skipped g0 s in
      let (g', run, after) =
        tick_while_lem fl lib laws clock 0 fuel n h m (skip_differential fl lib g0) (rw sk.time v)
          sk.small sk.whole (omega arith) in
      (
        g',
        run,
        after.time,
        after.spent,
        after.differential ∙ sk.left,
        omega (arith, after.elapsed, sk.elapsed),
      )
