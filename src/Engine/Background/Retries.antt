-- ===== src/Engine/Background/Retries.antt =====
-- engine/background.py: the retries of a failed job, over every sequence of the manager's steps.
use groupware_migrator.Base.{
  ℕ, zero, suc, ◌+◌, ◌*◌, ◌^◌, ◌≤◌, String, ◌≡◌, refl, inl, inr, Bool, true, false, Option, none,
  some, List, [], ◌∷◌, ◌++◌, arith, if◌then◌else◌, Bool-cases, ◌==◌, nat_eq, string_eq, All,
  All-append, Result, ok, err, ℤ, pos, negsuc, pos_part, le_ℕ,
}
use groupware_migrator.Base.Dict.{lookup, put, All-pop}
use groupware_migrator.Domain.Types.{failed, MigrationRequest}
use groupware_migrator.State.Schema.{JobRow, Store}
use groupware_migrator.State.Jobs.{
  cancel_job as store_cancel_job, get_job, has_job, create_job, increment_retry_count, is_status,
}
use groupware_migrator.Engine.Background.Running.{started, submit-cases}
use groupware_migrator.Engine.Background.{
  Context, Timer, Manager, submit, end_run, retry_delay, notify, plan_retry, after_run, on_done,
  schedule_retry, start_job, resume_job, cancel_job, stop_accepting, forget, or_keep,
}

one_le_pow : (n : ℕ) → 1 ≤ 2 ^ n
one_le_pow zero = omega arith
one_le_pow (suc n) = omega (arith, one_le_pow n)

-- A retry waits between half a minute and five minutes, twice as long each time until then.
pub retry_delay-bounds :
    (n : ℕ)
    → (30 ≤ retry_delay n)
      × (retry_delay n ≤ 300)
      × (n ≤ 3 → retry_delay n ≡ 30 * 2 ^ n)
      × (4 ≤ n → retry_delay n ≡ 300)
unfolding retry_delay
retry_delay-bounds zero = (omega arith, omega arith, λ h. refl, λ h. omega (arith, h))
retry_delay-bounds (suc zero) = (omega arith, omega arith, λ h. refl, λ h. omega (arith, h))
retry_delay-bounds (suc (suc zero)) = (omega arith, omega arith, λ h. refl, λ h. omega (arith, h))
retry_delay-bounds (suc (suc (suc zero))) =
    (omega arith, omega arith, λ h. refl, λ h. omega (arith, h))
retry_delay-bounds (suc (suc (suc (suc n)))) =
    let large = one_le_pow n in
    (omega (arith, large), omega (arith, large), λ h. omega (arith, h), λ h. omega (arith, large))

-- the number of retries that a request asks for
abbrev pub budget : MigrationRequest → ℕ
budget request = pos_part request.options.max_retries

pub WithinBudget : String × Context → Type 0
WithinBudget entry = entry.1.retry_attempt ≤ budget entry.1.request

pub InTime : Timer → Type 0
InTime t = (t.retry_attempt ≤ budget t.request) × (30 ≤ t.delay) × (t.delay ≤ 300)

-- No run and no timer has a retry number beyond the retries of its request.
pub record InBudget (m : Manager) : Type 0 where
  pub contexts : All WithinBudget m.job_contexts
  pub timers : All InTime m.timers

-- what the clients, the pool's threads and the timers do with the manager
pub data Step (fresh : Manager → String) : Manager → Manager → Type 0 where
  starts :
      (request : MigrationRequest) (user : Option String) (priority : String) (m : Manager)
      → Step fresh m (start_job (fresh m) request user priority m).1
  resumes :
      (job_id : String) (request : MigrationRequest) (m : Manager)
      → Step fresh m (resume_job job_id request m).1
  cancels : (job_id : String) (m : Manager) → Step fresh m (cancel_job job_id m).1
  ends : (f : ℕ) (s : Store) (m : Manager) → Step fresh m (end_run f s m)
  calls_back :
      (job_id : String) (raised : Bool) (m : Manager) → Step fresh m (on_done job_id raised m)
  fires :
      (before after : List Timer) (t : Timer) (m : Manager)
      → m.timers ≡ before ++ t ∷ after
      → Step fresh m (
          schedule_retry t.job_id t.request t.retry_attempt (record m { timers = before ++ after }))
  shuts_down : (m : Manager) → Step fresh m (stop_accepting m)

pub data Reachable (fresh : Manager → String) (m : Manager) : Manager → Type 0 where
  here : Reachable fresh m m
  next : {a b : Manager} → Reachable fresh m a → Step fresh a b → Reachable fresh m b

budget_left :
    (n : ℕ) (request : MigrationRequest)
    → le_ℕ request.options.max_retries n ≡ false
    → n + 1 ≤ budget request
budget_left n request h = left request.options.max_retries h
  where
    left : (z : ℤ) → le_ℕ z n ≡ false → n + 1 ≤ pos_part z
    left (pos k) h = ground (arith, h)
    left (negsuc k) h = absurd (cc h)

started-InBudget :
    (job_id : String) (request : MigrationRequest) (n : ℕ) (m : Manager)
    → n ≤ budget request
    → InBudget m
    → InBudget (started job_id request n m)
unfolding started put WithinBudget
started-InBudget job_id request n m small h = record {
  contexts = (small, All-pop WithinBudget job_id m.job_contexts h.contexts);
  timers = h.timers;
}

forget-InBudget : (job_id : String) (m : Manager) → InBudget m → InBudget (forget job_id m)
forget-InBudget job_id m h = record {
  contexts = All-pop WithinBudget job_id m.job_contexts h.contexts;
  timers = h.timers;
}

All-lookup :
    (k : String) (d : List (String × Context)) (c : Context)
    → All WithinBudget d
    → lookup k d ≡ some c
    → c.retry_attempt ≤ budget c.request
unfolding lookup WithinBudget
All-lookup k [] c h e = absurd (cc e)
All-lookup k ((j, w) ∷ d) c h e = elim (Bool-cases (j == k)) [
  | inl same ↦ let eq : w ≡ c = cc (e, same) in rw (← eq) h.0
  | inr differs ↦ All-lookup k d c h.1 (rw differs at e)
]

plan_retry-InBudget :
    (job_id : String) (context : Context) (row : JobRow) (m : Manager)
    → InBudget m
    → InBudget (plan_retry job_id context row m)
unfolding plan_retry InTime
plan_retry-InBudget job_id context row m h =
    elim (Bool-cases (le_ℕ context.request.options.max_retries context.retry_attempt)) [
      | inl spent ↦ rw spent h
      | inr left ↦ elim (Bool-cases (is_status row.status failed)) [
        | inl over ↦
            let bounds = retry_delay-bounds context.retry_attempt in
            rw left (
              rw over (record {
                contexts = h.contexts;
                timers = All-append InTime m.timers _ h.timers (
                  (budget_left context.retry_attempt context.request left, bounds.0, bounds.1),
                  tt,
                );
              }))
        | inr fine ↦ rw left (rw fine h)
      ]
    ]

after_run-InBudget :
    (job_id : String) (context : Option Context) (raised : Bool) (row : Option JobRow) (m : Manager)
    → InBudget m
    → InBudget (after_run job_id context raised row m)
unfolding after_run notify
after_run-InBudget job_id none raised row m h = h
after_run-InBudget job_id (some context) true row m h = h
after_run-InBudget job_id (some context) false none m h = h
after_run-InBudget job_id (some context) false (some row) m h =
    plan_retry-InBudget job_id context row (notify job_id row m)
      (record { contexts = h.contexts; timers = h.timers })

on_done-InBudget :
    (job_id : String) (raised : Bool) (m : Manager)
    → InBudget m
    → InBudget (on_done job_id raised m)
unfolding on_done
on_done-InBudget job_id raised m h =
    after_run-InBudget job_id (lookup job_id m.job_contexts) raised (get_job job_id m.store)
      (forget job_id m) (forget-InBudget job_id m h)

with_store-InBudget : (m : Manager) (s : Store) → InBudget m → InBudget (record m { store = s })
with_store-InBudget m s h = record { contexts = h.contexts; timers = h.timers }

branch-InBudget :
    (b : Bool) (m m' : Manager) → InBudget m → InBudget m' → InBudget (if b then m else m')
branch-InBudget true m m' h h' = h
branch-InBudget false m m' h h' = h'

or_keep-InBudget :
    (job_id : String) (request : MigrationRequest) (n : ℕ) (m : Manager)
    → n ≤ budget request
    → InBudget m
    → InBudget (or_keep m (submit job_id request n m))
or_keep-InBudget job_id request n m small h = elim (submit-cases job_id request n m) [
  | inl (e, refused) ↦ rw refused h
  | inr taken ↦ rw taken (started-InBudget job_id request n m small h)
]

schedule_retry-InBudget :
    (job_id : String) (request : MigrationRequest) (n : ℕ) (m : Manager)
    → n ≤ budget request
    → InBudget m
    → InBudget (schedule_retry job_id request n m)
unfolding schedule_retry
schedule_retry-InBudget job_id request n m small h =
    let m' : Manager = record m { store = increment_retry_count job_id n m.store } in
    let kept = with_store-InBudget m (increment_retry_count job_id n m.store) h in
    branch-InBudget m.accepting (or_keep m' (submit job_id request n m')) m
      (or_keep-InBudget job_id request n m' small kept) h

-- the manager after an operation that submits a first attempt and reports an exception
answered-InBudget :
    (id : String) (m : Manager) (r : Result Manager)
    → InBudget (or_keep m r)
    → InBudget
        (elim r as (λ _. Result String × Manager) [ err e ↦ (err e, m) | ok m' ↦ (ok id, m') ]).1
answered-InBudget id m (ok m') h = h
answered-InBudget id m (err e) h = h

start_job-InBudget :
    (id : String) (request : MigrationRequest) (user : Option String) (priority : String)
    (m : Manager)
    → InBudget m
    → InBudget (start_job id request user priority m).1
unfolding start_job
start_job-InBudget id request user priority m h =
    go (create_job id request [] user priority m.store)
  where
    go :
        (r : Result Store)
        → InBudget
            (elim r as (λ _. Result String × Manager) [
              | err e ↦ (err e, m)
              | ok s ↦
                  elim (submit id request 0 (record m { store = s }))
                    as (λ _. Result String × Manager) [
                      | err e ↦ (err e, record m { store = s })
                      | ok m'' ↦ (ok id, m'')
                    ]
            ]).1
    go (err e) = h
    go (ok s) =
        answered-InBudget id (record m { store = s }) (submit id request 0 (record m { store = s }))
          (or_keep-InBudget id request 0 (record m { store = s }) (omega arith)
            (with_store-InBudget m s h))

resume_job-InBudget :
    (id : String) (request : MigrationRequest) (m : Manager)
    → InBudget m
    → InBudget (resume_job id request m).1
unfolding resume_job
resume_job-InBudget id request m h = elim (Bool-cases (has_job id m.store)) [
  | inl known ↦
      rw (resume_job, known)
        (answered-InBudget id m (submit id request 0 m)
          (or_keep-InBudget id request 0 m (omega arith) h))
  | inr unknown ↦ rw (resume_job, unknown) h
]

cancel_job-InBudget : (id : String) (m : Manager) → InBudget m → InBudget (cancel_job id m).1
unfolding cancel_job
cancel_job-InBudget id m h = go (lookup id m.stop_events)
  where
    go :
        (flag : Option Bool)
        → InBudget
            (elim flag as (λ _. Bool × Manager) [
              | some flag ↦ (true, record m { stop_events = put id true m.stop_events })
              | none ↦ (
                (store_cancel_job id m.store).1,
                record m { store = (store_cancel_job id m.store).0 },
              )
            ]).1
    go (some flag) = record { contexts = h.contexts; timers = h.timers }
    go none = record { contexts = h.contexts; timers = h.timers }

All-split :
    (before after : List Timer) (t : Timer)
    → All InTime (before ++ t ∷ after)
    → InTime t × All InTime (before ++ after)
All-split [] after t h = h
All-split (x ∷ before) after t h =
    let rest = All-split before after t h.1 in (rest.0, (h.0, rest.1))

Step-InBudget :
    {fresh : Manager → String} {m m' : Manager} → Step fresh m m' → InBudget m → InBudget m'
unfolding InTime stop_accepting end_run
Step-InBudget (starts request user priority m) h = start_job-InBudget _ request user priority m h
Step-InBudget (resumes id request m) h = resume_job-InBudget id request m h
Step-InBudget (cancels id m) h = cancel_job-InBudget id m h
Step-InBudget (ends f s m) h = record { contexts = h.contexts; timers = h.timers }
Step-InBudget (calls_back id raised m) h = on_done-InBudget id raised m h
Step-InBudget (fires before after t m e) h =
    let split = All-split before after t (rw e at h.timers) in
    schedule_retry-InBudget t.job_id t.request t.retry_attempt
      (record m { timers = before ++ after }) split.0.0
      (record { contexts = h.contexts; timers = split.1 })
Step-InBudget (shuts_down m) h = record { contexts = h.contexts; timers = h.timers }

-- However starts, resumes, cancellations, ends of runs, callbacks, timers and a shutdown follow each
-- other, a job's retry number stays within the retries that its request asks for, and every timer waits
-- between 30 and 300 seconds, if this was so at the beginning.
pub Reachable-InBudget :
    {fresh : Manager → String} {m m' : Manager} → Reachable fresh m m' → InBudget m → InBudget m'
Reachable-InBudget here h = h
Reachable-InBudget (next path step) h = Step-InBudget step (Reachable-InBudget path h)
