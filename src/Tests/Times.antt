-- ===== src/Tests/Times.antt =====
-- Cron expressions, schedules and webhooks at concrete times.
use mathlib.Core.Path.{subst}
use groupware_migrator.Base.{
  is_some, true, ℕ, ◌+◌, ◌*◌, ◌/◌, ◌%◌, ◌≤◌, ◌<◌, String, ◌≡◌, refl, ap, true, false, none, some,
  List, [], ◌∷◌, ◌++◌, map, arith, if◌then◌else◌, ◌==◌, nat_eq, string_eq, length, select_where,
  any_where, value_error, ok, ok_same, pos,
}
use groupware_migrator.Base.Split.{words, split_on, contains}
use groupware_migrator.Base.Text.{strip}
use groupware_migrator.Domain.ToDict.{
  request_to_dict, source_to_dict, connection_to_dict, auth_value, destination_to_dict,
  workload_value, source_str, source_value, destination_str, destination_value, options_to_dict,
  tls_value, dict, sync_value,
}
use groupware_migrator.Domain.FromDict.RoundTrip.{with_none_texts}
use groupware_migrator.State.Jobs.{create_job, get_job}
use groupware_migrator.Domain.FromDict.{request_from_dict}
use groupware_migrator.State.Schema.{ScheduleRow, WebhookRow}
use groupware_migrator.State.Schedules.{list_due_schedules}
use groupware_migrator.Engine.Cron.{
  CronFields, Calendar, fits, matches, day_ok, verdict, advance, cron_fields, search, cron_next,
  parse_interval_seconds,
}
use groupware_migrator.Engine.Cron.Window.{IsCalendar}
use groupware_migrator.Engine.Cron.First.{IsFirst, Readable, cron_next-IsFirst, cron_next-finds}
use groupware_migrator.Engine.Background.{Manager, submit, start_job}
use groupware_migrator.Engine.Scheduler.{
  schedule_user, after_seconds, compute_next_run, next_run_after_now, set_next, after_start,
  try_fire, fire, fire_all, tick,
}
use groupware_migrator.Engine.Scheduler.Times.{IsPositive, IsForward}
use groupware_migrator.Engine.Scheduler.Tick.{tick-none_due, fire-repeats}
use groupware_migrator.Engine.Webhooks.{Answer, response, failure, attempts, deliver_one}
use groupware_migrator.Engine.Webhooks.Attempts.{AreMade, delivery_row, deliver_one-AreMade}
use groupware_migrator.Tests.Fixtures.{python, request, store_of, manager}

-- months of thirty days
abbrev calendar : Calendar
calendar = record {
  month = λ d. d / 30 % 12 + 1;
  day_of_month = λ d. d % 30 + 1;
  next_month = λ d. (d / 30 + 1) * 30;
}

calendar-IsCalendar : IsCalendar calendar
calendar-IsCalendar = record {
  later = λ d. omega arith;
  same_month = λ d d' le lt. ap (λ n. n % 12 + 1) (same d d' le lt);
}
  where
    same : (d d' : ℕ) → d ≤ d' → d' < (d / 30 + 1) * 30 → d' / 30 ≡ d / 30
    same d d' le lt = omega (arith, le, lt)

abbrev always : CronFields
always = record { minute = "*"; hour = "*"; dom = "*"; month = "*"; dow = "*" }

-- the fifth minute of an hour
abbrev at_five : CronFields
at_five = record { minute = "5"; hour = "*"; dom = "*"; month = "*"; dow = "*" }

fields_example : cron_fields "5 * * * *" ≡ ok at_five
unfolding cron_fields words strip select_where
fields_example = refl

next_example : cron_next python calendar "5 * * * *" 62 ≡ ok 65
unfolding cron_next cron_fields words strip select_where search verdict advance day_ok matches
    split_on contains
next_example = refl

interval_example : parse_interval_seconds python "5m" ≡ ok (pos 300)
unfolding parse_interval_seconds strip
interval_example = refl

cron_next-IsFirst_example :
    (c : CronFields) × (cron_fields "5 * * * *" ≡ ok c) × IsFirst python calendar c 63 65
unfolding cron_next cron_fields words strip select_where search verdict advance day_ok matches
    split_on contains
cron_next-IsFirst_example =
    cron_next-IsFirst python calendar calendar-IsCalendar "5 * * * *" 62 65 refl

cron_next-finds_example : (r : ℕ) × (cron_next python calendar "* * * * *" 62 ≡ ok r) × (r ≤ 90)
unfolding cron_fields words strip select_where verdict day_ok matches
cron_next-finds_example =
    cron_next-finds python calendar calendar-IsCalendar "* * * * *" always 62 90 refl refl
      (omega arith) (omega arith) every
  where
    every : Readable python calendar calendar-IsCalendar always 63 90
    every w le lt = (fits, refl)

abbrev schedule : String → String → String → ScheduleRow
schedule id kind expr = record {
  id = id;
  name = "nightly";
  schedule_type = kind;
  schedule_expr = expr;
  request_json = request_to_dict false (request false);
  is_active = true;
  user_id = some "u1";
  created_at = 0;
  updated_at = 0;
  next_run_at = 900;
  last_run_at = none;
  last_run_job_id = none;
}

abbrev scheduling : ScheduleRow → Manager
scheduling row = record manager { store = record (store_of []) { scheduled_jobs = row ∷ [] } }

abbrev id_of : ℕ → String
id_of n = "new"

tick-none_due_example :
    list_due_schedules 1000
      (tick python calendar id_of (scheduling (schedule "s1" "interval" "5m"))).1.store
    ≡ []
unfolding tick fire_all fire try_fire after_start set_next request_from_dict request_to_dict
    start_job submit next_run_after_now compute_next_run parse_interval_seconds strip after_seconds
    list_due_schedules select_where source_to_dict connection_to_dict auth_value destination_to_dict
    workload_value source_str source_value destination_str destination_value options_to_dict
    tls_value dict sync_value create_job any_where
tick-none_due_example =
    tick-none_due python calendar calendar-IsCalendar id_of
      (scheduling (schedule "s1" "interval" "5m")) (positive, tt) ((300001000, refl), tt)
  where
    positive : IsForward python (schedule "s1" "interval" "5m")
    positive kind i read = subst IsPositive (ok_same read) (omega arith)

abbrev broken : ScheduleRow
broken = schedule "s1" "cron" "5 * *"

fire-repeats_example :
    let m' = (fire python calendar "new" broken (scheduling broken)).1 in
    (m'
      ≡ (start_job "new"
          (with_none_texts (request false))
          (schedule_user broken)
          "normal"
          (scheduling broken)).1)
    × (is_some (get_job "new" m'.store) ≡ true)
    × (m'.store.scheduled_jobs ≡ broken ∷ [])
    × (list_due_schedules 1000 m'.store ≡ list_due_schedules 1000 (scheduling broken).store)
unfolding request_from_dict request_to_dict start_job submit next_run_after_now compute_next_run
    cron_next cron_fields words strip select_where source_to_dict connection_to_dict auth_value
    destination_to_dict workload_value source_str source_value destination_str destination_value
    options_to_dict tls_value dict sync_value create_job any_where
fire-repeats_example =
    fire-repeats python calendar calendar-IsCalendar "new" broken (scheduling broken)
      (with_none_texts (request false)) (value_error "Cron expression must have 5 fields: '5 * *'")
      refl refl refl

abbrev hook : WebhookRow
hook = record {
  id = "w1";
  user_id = some "u1";
  label = "chat";
  url = "https://chat.example.org";
  secret = "s";
  events = "job.failed" ∷ [];
  is_active = true;
  created_at = 0;
  last_delivery_at = none;
  last_delivery_status = none;
}

-- The server fails at first and then answers.
abbrev post : String → ℕ → Answer
post url n = if n == 1 then failure "timed out" else response 200

deliver_one-AreMade_example :
    (made : List ℕ) × AreMade post "job.failed" "{}" hook attempts made
    × (1 ≤ length made)
    × (length made ≤ 3)
    × ((deliver_one post "job.failed" "{}" hook
          (record { store = store_of []; slept = 0 })).store.webhook_deliveries
        ≡ [] ++ map (delivery_row post "job.failed" "{}" hook 1000) made)
deliver_one-AreMade_example =
    deliver_one-AreMade post "job.failed" "{}" hook (record { store = store_of []; slept = 0 })

delivery_example :
    (deliver_one post "job.failed" "{}" hook (record { store = store_of []; slept = 0 })).slept ≡ 5
unfolding deliver_one
delivery_example = refl
