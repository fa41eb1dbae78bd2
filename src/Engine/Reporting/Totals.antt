-- ===== src/Engine/Reporting/Totals.antt =====
-- engine/reporting.py: the counts and the rate of a report against the store that it is made from.
use native.Mathlib.Nat.{mul_comm}
use groupware_migrator.Base.{
  ℕ, ◌+◌, ◌*◌, ◌≤◌, ◌<◌, String, ◌≡◌, refl, inl, inr, Bool-cases, Bool, some, List, [], ◌∷◌, arith,
  if◌then◌else◌, ◌==◌, nat_eq, string_eq, length, count_where, ok, ℤ,
}
use groupware_migrator.Base.Dict.{lookup, put, lookup-put}
use groupware_migrator.State.Schema.{JobRow, AuditEventRow, Store}
use groupware_migrator.State.Jobs.{get_job}
use groupware_migrator.State.Listings.{list_audit_events}
use groupware_migrator.Engine.Reporting.{
  count_of, count_events, event_type_counts, audit_section, job_section, metrics_of, report_of,
  JobReport, build_job_report,
}

abbrev pub is_type : String → AuditEventRow → Bool
is_type event_type event = event.event_type == event_type

count_of-put :
    (k j : String) (v : ℕ) (d : List (String × ℕ))
    → count_of j (put k v d) ≡ (if k == j then v else count_of j d)
unfolding count_of
count_of-put k j v d = elim (Bool-cases (k == j)) [
  | inl e ↦ rw (lookup-put k j v d, e) refl
  | inr e ↦ rw (lookup-put k j v d, e) refl
]

count_of-count_events :
    (t : String) (events : List AuditEventRow) (d : List (String × ℕ))
    → count_of t (count_events events d) ≡ count_of t d + count_where (is_type t) events
unfolding count_events count_where
count_of-count_events t [] d = omega arith
count_of-count_events t (x ∷ xs) d = ground (
  arith,
  count_of-count_events t xs (put x.event_type (count_of x.event_type d + 1) d),
  count_of-put x.event_type t (count_of x.event_type d + 1) d,
  string_eq.beq_iff x.event_type t,
)

event_type_counts-count_where :
    (t : String) (events : List AuditEventRow)
    → count_of t (event_type_counts events) ≡ count_where (is_type t) events
unfolding event_type_counts count_of lookup
event_type_counts-count_where t events = omega (arith, count_of-count_events t events [])

-- The rate m / n of these counts is a proper fraction, and it is the share of the migrated messages.
abbrev pub IsRateOf : JobRow → ℕ × ℕ → Type 0
IsRateOf row rate =
    (rate.0 ≤ rate.1)
    × (0 < rate.1)
    × (rate.0 * (row.migrated_count + row.skipped_count + row.failed_count)
        ≡ rate.1 * row.migrated_count)

metrics_of-IsRateOf : (row : JobRow) → IsRateOf row ((metrics_of row).success_rate)
unfolding metrics_of
metrics_of-IsRateOf row =
    rate row.migrated_count (row.migrated_count + row.skipped_count + row.failed_count)
      (omega arith)
  where
    rate :
        (m n : ℕ)
        → m ≤ n
        → let r = if◌then◌else◌ {A = ℕ × ℕ} (n == 0) (0, 1) (m, n) in
          (r.0 ≤ r.1) × (0 < r.1) × (r.0 * n ≡ r.1 * m)
    rate m n le = elim (Bool-cases (n == 0)) [
      | inl e ↦
          let z = (nat_eq.beq_iff n 0).0 e in rw e (omega arith, omega arith, omega (arith, z, le))
      | inr e ↦ rw e (le, ground (arith, e, (nat_eq.beq_iff n 0).1), mul_comm m n)
    ]

-- What a report says of the store: each type of event is counted as often as it is among the listed
-- events, the counted events are all listed ones, and the rate is the share of the migrated messages.
abbrev pub IsReportOf : String → ℤ → Store → JobRow → JobReport → Type 0
IsReportOf job_id limit s row report =
    ((t : String)
      → count_of t report.audit.type_counts
        ≡ count_where (is_type t) (list_audit_events job_id limit s))
    × (report.audit.event_count ≡ length (list_audit_events job_id limit s))
    × (report.metrics.processed_count ≡ row.migrated_count + row.skipped_count + row.failed_count)
    × IsRateOf row report.metrics.success_rate

-- A report can be made of every job that exists. It counts each type of event as often as it occurs
-- among the job's listed events, and its success rate is a proper fraction, the share of the migrated
-- messages of all that were processed.
pub build_job_report-IsReportOf :
    (now : ℕ) (job_id : String) (limit : ℤ) (s : Store) (row : JobRow)
    → get_job job_id s ≡ some row
    → (report : JobReport) × (build_job_report now job_id limit s ≡ ok report)
      × IsReportOf job_id limit s row report
unfolding build_job_report report_of job_section metrics_of audit_section
build_job_report-IsReportOf now job_id limit s row found = (
  report_of now row (list_audit_events job_id limit s),
  rw (found, build_job_report) refl,
  (λ t. event_type_counts-count_where t _, refl, refl, metrics_of-IsRateOf row),
)
