-- ===== src/State/Jobs/Lookup.antt =====
-- engine/state.py: what `get_job` returns after each write.
use mathlib.Core.Option
use groupware_migrator.Base.{
  ℕ, String, ◌≡◌, refl, ap, ◌∙◌, Bool, false, Option, none, some, if◌then◌else◌, ◌==◌, nat_eq,
  string_eq, ==-refl, is_some, ok, sym, bind_ok, ok_same, guard_ok,
}
use groupware_migrator.Base.Keyed.{find_where-snoc, any_where-find, find_where-update}
use groupware_migrator.Domain.Types.{JobStatus, pending, MigrationPlan, MigrationRequest}
use groupware_migrator.Domain.ToDict.{
  plan_to_dict, source_protocol_value, destination_protocol_value,
}
use groupware_migrator.State.Schema.{JobRow, Store}
use groupware_migrator.State.Jobs.{
  get_job, update_job, status_row, set_job_status, count_row, increment_counters, update_job_plan,
  insert_job, has_job, create_job, new_job,
}

-- An update that keeps the id is seen by the lookup of that id, and by no other.
pub get_job-update_job :
    (k j : String) (f : JobRow → JobRow) (s : Store)
    → ((row : JobRow) → (f row).job_id ≡ row.job_id)
    → get_job j (update_job k f s) ≡ (if k == j then Option.map f (get_job j s) else get_job j s)
unfolding get_job update_job
get_job-update_job k j f s keep = find_where-update (λ row. row.job_id) k j f s.jobs keep

pub get_job-set_job_status :
    (k j : String) (st : JobStatus) (error : Option String) (a b : Bool) (s : Store)
    → get_job j (set_job_status k st error a b s)
      ≡ (if k == j then Option.map (status_row s.clock st error a b) (get_job j s) else get_job j s)
unfolding set_job_status
get_job-set_job_status k j st error a b s =
    get_job-update_job k j (status_row s.clock st error a b) s (λ row. refl)

pub get_job-increment_counters :
    (k j : String) (m n f : ℕ) (s : Store)
    → get_job j (increment_counters k m n f s)
      ≡ (if k == j then Option.map (count_row s.clock m n f) (get_job j s) else get_job j s)
unfolding increment_counters
get_job-increment_counters k j m n f s =
    get_job-update_job k j (count_row s.clock m n f) s (λ row. refl)

-- the row that `update_job_plan` writes
unfoldable pub plan_row : ℕ → MigrationPlan → JobRow → JobRow
plan_row now plan row = record row { plan_json = plan_to_dict plan; updated_at = now }

pub get_job-update_job_plan :
    (k j : String) (plan : MigrationPlan) (s : Store)
    → get_job j (update_job_plan k plan s)
      ≡ (if k == j then Option.map (plan_row s.clock plan) (get_job j s) else get_job j s)
unfolding update_job_plan plan_row
get_job-update_job_plan k j plan s = get_job-update_job k j (plan_row s.clock plan) s (λ row. refl)

pub get_job-insert_job :
    (j : String) (row : JobRow) (s : Store)
    → get_job j (insert_job row s)
      ≡ elim (get_job j s) [ some x ↦ some x | none ↦ if row.job_id == j then some row else none ]
unfolding get_job insert_job
get_job-insert_job j row s = find_where-snoc (λ row. row.job_id) j s.jobs row

pub has_job-get_job : (j : String) (s : Store) → has_job j s ≡ is_some (get_job j s)
unfolding has_job get_job
has_job-get_job j s = any_where-find (λ row. row.job_id) j s.jobs

pub new_job-lem :
    (id : String) (request : MigrationRequest) (plan : MigrationPlan) (user : Option String)
    (priority : String) (now : ℕ) (row : JobRow)
    → new_job id request plan user priority now ≡ ok row
    → (row.job_id ≡ id) × (row.status ≡ pending)
unfolding new_job
new_job-lem id request plan user priority now row h =
    let (source, _, rest) = bind_ok (source_protocol_value request.source.protocol) _ row h in
    let (destination, _, made) =
      bind_ok (destination_protocol_value request.destination.protocol) _ row rest in
    let same = sym (ok_same made) in
    (ap (λ (r : JobRow). r.job_id) same, ap (λ (r : JobRow). r.status) same)

-- A job that was created is found under its id, as a new row. Its id was not in use.
pub get_job-create_job :
    (id : String) (request : MigrationRequest) (plan : MigrationPlan) (user : Option String)
    (priority : String) (s t : Store)
    → create_job id request plan user priority s ≡ ok t
    → (row : JobRow) × (new_job id request plan user priority s.clock ≡ ok row)
      × (get_job id t ≡ some row)
      × (get_job id s ≡ none)
unfolding create_job
get_job-create_job id request plan user priority s t h =
    let (row, new, rest) = bind_ok (new_job id request plan user priority s.clock) _ t h in
    let (fresh, made) = guard_ok (has_job id s) _ (insert_job row s) t rest in
    let free : get_job id s ≡ none = none_of (get_job id s) (sym (has_job-get_job id s) ∙ fresh) in
    let same_id = (new_job-lem id request plan user priority s.clock row new).0 in
    (
      row,
      new,
      rw (← made) (rw get_job-insert_job (rw free (rw same_id (rw (==-refl id) refl)))),
      free,
    )
  where
    none_of : (o : Option JobRow) → is_some o ≡ false → o ≡ none
    none_of none e = refl
    none_of (some row) e = absurd cc
