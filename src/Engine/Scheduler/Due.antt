-- ===== src/Engine/Scheduler/Due.antt =====
-- engine/state.py: the rows that `list_due_schedules` finds, and those that are due no more.
use mathlib.Core.Path.{subst}
use groupware_migrator.Base.{
  ℕ, ◌<◌, String, ◌≡◌, refl, sym, ap, ◌∙◌, ◌⊎◌, inl, inr, Bool, true, false, ◌&&◌, ◌||◌, List, [],
  ◌∷◌, arith, leb, if◌then◌else◌, leb→le, Bool-cases, ◌==◌, nat_eq, string_eq, ==-refl, ==_sym,
  select_where, update_where, any_where, All,
}
use groupware_migrator.State.Schema.{ScheduleRow, Store}
use groupware_migrator.State.Schedules.{
  schedule_is, is_due, insert_by_time, by_time, list_due_schedules, fired_row,
}

-- A row of the id is in the list.
abbrev pub listed : List ScheduleRow → String → Bool
listed due schedule_id = any_where (schedule_is schedule_id) due

-- A row that is due is in the list, by its id.
abbrev pub IsPending : ℕ → List ScheduleRow → ScheduleRow → Type 0
IsPending now due row = is_due now row ≡ true → listed due row.id ≡ true

any_where-insert_by_time :
    (p : ScheduleRow → Bool) (row : ScheduleRow) (rows : List ScheduleRow)
    → any_where p (insert_by_time row rows) ≡ (p row || any_where p rows)
unfolding any_where insert_by_time
any_where-insert_by_time p row [] = refl
any_where-insert_by_time p row (r ∷ rows) = elim (Bool-cases (leb row.next_run_at r.next_run_at)) [
  | inl e ↦ rw e refl
  | inr e ↦ rw e (ground (arith, any_where-insert_by_time p row rows))
]

any_where-by_time :
    (p : ScheduleRow → Bool) (rows : List ScheduleRow)
    → any_where p (by_time rows) ≡ any_where p rows
unfolding any_where by_time
any_where-by_time p [] = refl
any_where-by_time p (row ∷ rows) =
    any_where-insert_by_time p row (by_time rows) ∙ ap (λ b. p row || b) (any_where-by_time p rows)

All-map {ℓ κ κ'} :
    {A : Type ℓ} (P : A → Type κ) (Q : A → Type κ') (xs : List A)
    → ((x : A) → P x → Q x)
    → All P xs
    → All Q xs
All-map P Q [] f h = tt
All-map P Q (x ∷ xs) f h = (f x h.0, All-map P Q xs f h.1)

select_due :
    (now : ℕ) (row : ScheduleRow) (rows : List ScheduleRow)
    → is_due now row ≡ true
    → select_where (is_due now) (row ∷ rows) ≡ row ∷ select_where (is_due now) rows
unfolding select_where
select_due now row rows e = rw e refl

select_later :
    (now : ℕ) (row : ScheduleRow) (rows : List ScheduleRow)
    → is_due now row ≡ false
    → select_where (is_due now) (row ∷ rows) ≡ select_where (is_due now) rows
unfolding select_where
select_later now row rows e = rw e refl

IsPending-first :
    (now : ℕ) (row : ScheduleRow) (due : List ScheduleRow) → IsPending now (row ∷ due) row
unfolding any_where
IsPending-first now row due is = rw (==-refl row.id) refl

IsPending-more :
    (now : ℕ) (d : ScheduleRow) (due : List ScheduleRow) (x : ScheduleRow)
    → IsPending now due x
    → IsPending now (d ∷ due) x
unfolding any_where
IsPending-more now d due x h is = rw (h is) ground arith

absurd_due : {A : Type 0} → false ≡ true → A
absurd_due h = absurd cc

selected_rows :
    (now : ℕ) (rows : List ScheduleRow) → All (IsPending now (select_where (is_due now) rows)) rows
selected_rows now [] = tt
selected_rows now (row ∷ rows) = elim (Bool-cases (is_due now row)) [
  | inl e ↦
      subst (λ due. All (IsPending now due) (row ∷ rows)) (sym (select_due now row rows e))
        (
          IsPending-first now row _,
          All-map (IsPending now (select_where (is_due now) rows)) _ rows (IsPending-more now row _)
              (selected_rows now rows),
        )
  | inr e ↦
      subst (λ due. All (IsPending now due) (row ∷ rows)) (sym (select_later now row rows e))
        ((λ is. absurd_due (sym e ∙ is)), selected_rows now rows)
]

pub due_IsPending :
    (now : ℕ) (s : Store) → All (IsPending now (list_due_schedules now s)) s.scheduled_jobs
unfolding list_due_schedules
due_IsPending now s =
    All-map (IsPending now (select_where (is_due now) s.scheduled_jobs))
      (IsPending now (by_time (select_where (is_due now) s.scheduled_jobs))) s.scheduled_jobs
      (λ x h due.
        any_where-by_time (schedule_is x.id) (select_where (is_due now) s.scheduled_jobs) ∙ h due)
      (selected_rows now s.scheduled_jobs)

-- Once its rows have a later time, a schedule is not needed in the list.
pub fired_IsPending :
    (now t : ℕ) (job_id : String) (d : ScheduleRow) (due rows : List ScheduleRow)
    → now < t
    → All (IsPending now (d ∷ due)) rows
    → All (IsPending now due) (update_where (schedule_is d.id) (fired_row now job_id t) rows)
unfolding any_where update_where
fired_IsPending now t job_id d due [] later h = tt
fired_IsPending now t job_id d due (row ∷ rows) later h =
    (go (Bool-cases (row.id == d.id)), fired_IsPending now t job_id d due rows later h.1)
  where
    both : (a b : Bool) → (a && b) ≡ true → b ≡ true
    both a b h = ground arith

    other_row : (a b : Bool) → a ≡ false → (a || b) ≡ true → b ≡ true
    other_row a b e h = ground arith

    differs' : (row.id == d.id) ≡ false → (d.id == row.id) ≡ false
    differs' e = elim (Bool-cases (d.id == row.id)) [
      | inr e' ↦ e'
      | inl e' ↦ absurd_due (sym e ∙ ==_sym d.id row.id e')
    ]

    go :
        ((row.id == d.id) ≡ true) ⊎ ((row.id == d.id) ≡ false)
        → IsPending now due (if row.id == d.id then fired_row now job_id t row else row)
    go (inl same) =
        rw same
          (λ is. absurd (omega (arith, later, leb→le t now (both row.is_active (leb t now) is))))
    go (inr differs) =
        rw differs
          (λ is. other_row (d.id == row.id) (listed due row.id) (differs' differs) (h.0 is))

pub none_due :
    (now : ℕ) (s : Store) → All (IsPending now []) s.scheduled_jobs → list_due_schedules now s ≡ []
unfolding list_due_schedules by_time any_where select_where
none_due now s h = ap by_time (go s.scheduled_jobs h)
  where
    go :
        (rows : List ScheduleRow)
        → All (IsPending now []) rows
        → select_where (is_due now) rows ≡ []
    go [] h = refl
    go (row ∷ rows) h = elim (Bool-cases (is_due now row)) [
      | inl e ↦ absurd_due (h.0 e)
      | inr e ↦ select_later now row rows e ∙ go rows h.1
    ]
