-- ===== src/Time/GameTime/Set.antt =====
-- GameTimeSetTime: the biases, and the minute that is taken back and ticked again.
use whoa.Base.{
  ℕ, zero, suc, ◌+◌, ◌-◌, ◌*◌, ◌/◌, ◌%◌, ◌<◌, ◌≡◌, refl, ◌∙◌, arith, true, false, ◌==◌,
  if◌then◌else◌,
}
use whoa.Base.Int.{ℤ, pos, negsuc, ◌+ℤ◌, ◌-ℤ◌, ltb_ℤ, remainder}
use whoa.Time.WowTime.{WowTime, CLibrary, set_minutes, add_days}
use whoa.Time.WowTime.Clock.{IsAt, get_hour_and_minutes_set, set_minutes-IsAt, add_days-IsAt}
use whoa.Time.GameTime.{Float, GameTime, biased, rewind, set_time}
use whoa.Time.GameTime.Ticks.{IsAfter, tick_minute_lem}

-- The minute of the day before h:m.
abbrev IsBefore : ℕ → ℕ → WowTime → Type 0
IsBefore h m t = IsAt ((60 * h + m + 1439) % 1440 / 60) ((60 * h + m + 1439) % 1440 % 60) t

module _ (fl : Float) (lib : CLibrary) where
  IsAt-from : {h m h' m' : ℕ} (t : WowTime) → IsAt h m t → h ≡ h' → m ≡ m' → IsAt h' m' t
  IsAt-from t v p q = ground arith

  rewind-IsBefore : (h m : ℕ) (t : WowTime) → IsAt h m t → IsBefore h m (rewind fl lib t)
  unfolding rewind ◌-ℤ◌
  rewind-IsBefore h m t v =
      let eve : WowTime = record t { minute = pos 59; hour = pos 23 } in
      ground (
        arith,
        add_days-IsAt lib (negsuc 0) 23 59 eve
            (record { hour = refl; minute = refl; hour_in = omega arith; minute_in = omega arith }),
      )

  restore :
      (h m n : ℕ) (t : WowTime)
      → IsAt h m t
      → n ≡ 60 * h + m
      → 0 < 60 * h + m
      → (if n == 0
          then add_days lib (pos 1) false (set_minutes (pos n) (rewind fl lib t))
          else set_minutes (pos n) (rewind fl lib t))
        ≡ t
  unfolding rewind set_minutes ◌-ℤ◌
  restore h m n t v e later = ground arith

  -- Taking a minute back and ticking it again leaves the time of day at which the clock was set.
  pub set_time-IsAt :
      (now h m : ℕ) (t : WowTime) (g : GameTime fl)
      → IsAt h m (set_time fl lib now t false g).time
      → IsAt h m (set_time fl lib now t true g).time
  unfolding set_time
  set_time-IsAt now h m t g v =
      let t' = biased fl lib g.time_bias g.date_bias t in
      let before = rewind-IsBefore h m t' v in
      let k = (60 * h + m + 1439) % 1440 in
      let ticked =
        (tick_minute_lem fl lib now (k / 60) (k % 60) (record g { time = rewind fl lib t' })
          before).0 in
      IsAt-from _ ticked (omega arith) (omega arith)

  -- Any time but midnight is set exactly as without the tick, the date included.
  pub time-set_time :
      (now h m : ℕ) (t : WowTime) (g : GameTime fl)
      → IsAt h m (set_time fl lib now t false g).time
      → 0 < 60 * h + m
      → (set_time fl lib now t true g).time ≡ (set_time fl lib now t false g).time
  unfolding set_time
  time-set_time now h m t g v later =
      let t' = biased fl lib g.time_bias g.date_bias t in
      let before = rewind-IsBefore h m t' v in
      let k = (60 * h + m + 1439) % 1440 in
      let ticked =
        (tick_minute_lem fl lib now (k / 60) (k % 60) (record g { time = rewind fl lib t' })
          before).1 in
      ticked ∙ restore h m _ t' v (omega arith) later

  wrap : ℤ → ℤ
  wrap z = if ltb_ℤ z (pos 0) then z +ℤ pos 1440 else remainder z 1440

  wrap_later : (k b : ℕ) → wrap (pos k +ℤ pos b) ≡ pos ((k + b) % 1440)
  unfolding wrap ◌+ℤ◌
  wrap_later k b = ground arith

  wrap_earlier :
      (k b : ℕ) → k < 1440 → b < 1440 → wrap (pos k +ℤ negsuc b) ≡ pos ((k + (1439 - b)) % 1440)
  unfolding wrap ◌+ℤ◌
  wrap_earlier k b h l = ground arith

  -- The bias shifts the time of day, round midnight, as long as it does not go back more than a day.
  pub biased-IsAt :
      (h m b : ℕ) (t : WowTime)
      → IsAt h m t
      → IsAfter b h m (biased fl lib (pos b) (pos 0) t)
        × (b < 1440 → IsAfter (1439 - b) h m (biased fl lib (negsuc b) (pos 0) t))
  unfolding biased wrap
  biased-IsAt h m zero t v = (
    IsAt-from t v (omega arith) (omega arith),
    λ l.
        rw (get_hour_and_minutes_set h m t v, wrap_earlier (60 * h + m) 0 (omega arith) l)
          (ground (arith, set_minutes-IsAt ((60 * h + m + (1439 - 0)) % 1440) t (omega arith))),
  )
  biased-IsAt h m (suc b) t v = (
    rw (get_hour_and_minutes_set h m t v, wrap_later (60 * h + m) (suc b))
        (ground (arith, set_minutes-IsAt ((60 * h + m + suc b) % 1440) t (omega arith))),
    λ l.
        rw (get_hour_and_minutes_set h m t v, wrap_earlier (60 * h + m) (suc b) (omega arith) l)
          (ground (arith, set_minutes-IsAt ((60 * h + m + (1439 - suc b)) % 1440) t (omega arith))),
  )
