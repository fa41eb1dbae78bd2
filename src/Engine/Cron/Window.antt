-- ===== src/Engine/Cron/Window.antt =====
-- engine/cron.py: a step of the search passes over no time that matches.
use groupware_migrator.Base.{
  ℕ, ◌/◌, ◌%◌, ◌≤◌, ◌<◌, ◌≡◌, refl, sym, ap, ◌≢◌, ◌⊎◌, true, false, arith, nat_eq, string_eq, ok,
}
use groupware_migrator.Domain.FromDict.{Builtins}
use groupware_migrator.Engine.Cron.{
  CronFields, Calendar, Verdict, month_differs, day_differs, hour_differs, minute_differs, fits,
  day_of, hour_of, minute_of, matches, day_ok, verdict, advance,
}

-- The next month begins later, and until then the month is the same.
pub record IsCalendar (cal : Calendar) : Type 0 where
  pub later : (d : ℕ) → d < cal.next_month d
  pub same_month : (d d' : ℕ) → d ≤ d' → d' < cal.next_month d → cal.month d' ≡ cal.month d

module _ (py : Builtins) (cal : Calendar) (laws : IsCalendar cal) (c : CronFields) where
  pub advance-later : (v : Verdict) (t : ℕ) → v ≢ fits → t < advance py cal c v t
  unfolding advance
  advance-later month_differs t h = omega (arith, laws.later (day_of t))
  advance-later day_differs t h = omega arith
  advance-later hour_differs t h = omega arith
  advance-later minute_differs t h = omega arith
  advance-later fits t h = absurd (h refl)

  same_hour : (t u : ℕ) → t / 60 ≡ u / 60 → (day_of u ≡ day_of t) × (hour_of u ≡ hour_of t)
  same_hour t u h = (omega (arith, h), ap (λ n. n % 24) (sym h))

  verdict-cases :
      (t : ℕ) (v : Verdict)
      → verdict py cal c t ≡ ok v
      → ((v ≡ month_differs) × (matches py c.month (cal.month (day_of t)) 1 ≡ ok false))
        ⊎ ((matches py c.month (cal.month (day_of t)) 1 ≡ ok true)
            × (((v ≡ day_differs) × (day_ok py cal c (day_of t) ≡ ok false))
                ⊎ ((day_ok py cal c (day_of t) ≡ ok true)
                    × (((v ≡ hour_differs) × (matches py c.hour (hour_of t) 0 ≡ ok false))
                        ⊎ ((matches py c.hour (hour_of t) 0 ≡ ok true)
                            × (((v ≡ minute_differs)
                                  × (matches py c.minute (minute_of t) 0 ≡ ok false))
                                ⊎ ((v ≡ fits)
                                    × (matches py c.minute (minute_of t) 0 ≡ ok true))))))))
  unfolding verdict
  verdict-cases t v h = ground (arith)

  -- Until the time to which a verdict leads, the verdict is the same.
  pub verdict-same :
      (t u : ℕ) (v : Verdict)
      → verdict py cal c t ≡ ok v
      → t ≤ u
      → u < advance py cal c v t
      → verdict py cal c u ≡ ok v
  unfolding verdict advance
  verdict-same t u month_differs h le lt =
      let same : cal.month (day_of u) ≡ cal.month (day_of t) =
        laws.same_month (day_of t) (day_of u) (omega (arith, le)) (omega (arith, lt)) in
      rw same ground arith
  verdict-same t u day_differs h le lt =
      let same : day_of u ≡ day_of t = omega (arith, le, lt) in rw same ground arith
  verdict-same t u hour_differs h le lt =
      let same = same_hour t u (omega (arith, le, lt)) in rw (same.0, same.1) ground arith
  verdict-same t u minute_differs h le lt = let same : u ≡ t = omega (arith, le, lt) in rw same h
  verdict-same t u fits h le lt = absurd (omega (arith, le, lt))
