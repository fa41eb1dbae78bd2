-- ===== src/Engine/Scheduler/Times.antt =====
-- engine/scheduler.py: the next run lies in the future.
use groupware_migrator.Base.{
  ℕ, ◌*◌, ◌/◌, ◌<◌, ◌≡◌, refl, sym, ◌∙◌, ◌⊎◌, inl, inr, true, false, arith, Bool-cases, ◌==◌,
  nat_eq, string_eq, ==→≡, ok, bind_ok, ok_same, ℤ, pos, negsuc, pos_part,
}
use groupware_migrator.Domain.FromDict.{Builtins}
use groupware_migrator.Engine.Cron.{Calendar, parse_interval_seconds, cron_next}
use groupware_migrator.Engine.Cron.Window.{IsCalendar}
use groupware_migrator.Engine.Cron.First.{cron_next-IsFirst}
use groupware_migrator.State.Schema.{ScheduleRow}
use groupware_migrator.Engine.Scheduler.{
  minute, after_seconds, compute_next_run, next_run_after_now,
}

-- An interval of a second or more.
abbrev pub IsPositive : ℤ → Type 0
IsPositive i = 0 < pos_part i

-- A schedule of the kind "interval" has a positive one, if it is read.
abbrev pub IsForward : Builtins → ScheduleRow → Type 0
IsForward py row =
    row.schedule_type ≡ "interval"
    → (i : ℤ) → parse_interval_seconds py row.schedule_expr ≡ ok i
    → IsPositive i

after_seconds-later :
    (now : ℕ) (i : ℤ) (t : ℕ) → IsPositive i → after_seconds now i ≡ ok t → now < t
unfolding after_seconds
after_seconds-later now (pos n) t h e = ground arith
after_seconds-later now (negsuc n) t h e = absurd (omega (arith, h))

pub next_run_after_now-later :
    (py : Builtins) (cal : Calendar) (laws : IsCalendar cal) (row : ScheduleRow) (now t : ℕ)
    → IsForward py row
    → next_run_after_now py cal row now ≡ ok t
    → now < t
unfolding next_run_after_now compute_next_run
next_run_after_now-later py cal laws row now t forward h =
    go (Bool-cases (row.schedule_type == "interval"))
  where
    go :
        ((row.schedule_type == "interval") ≡ true) ⊎ ((row.schedule_type == "interval") ≡ false)
        → now < t
    go (inl same) =
        let (i, read, later) =
          bind_ok (parse_interval_seconds py row.schedule_expr) (after_seconds now) t
            (sym (rw same refl) ∙ h) in
        after_seconds-later now i t (forward (==→≡ _ _ same) i read) later
    go (inr differs) =
        let (u, found, later) =
          bind_ok (cron_next py cal row.schedule_expr (now / minute)) (λ t. ok (t * minute)) t
            (sym (rw differs refl) ∙ h) in
        let (c, parsed, first) =
          cron_next-IsFirst py cal laws row.schedule_expr (now / minute) u found in
        omega (arith, first.not_before, ok_same later)
