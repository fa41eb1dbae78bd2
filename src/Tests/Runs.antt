-- ===== src/Tests/Runs.antt =====
-- Runs of the migration on concrete sources, destinations and stores.
use groupware_migrator.Base.{
  ok, Result, ◌⊎◌, ℕ, String, ◌≡◌, refl, Bool, true, false, none, some, List, [], ◌∷◌, arith,
  nat_eq, string_eq, find_where, update_where, any_where, runtime_error,
}
use groupware_migrator.Base.Text.{decimal}
use groupware_migrator.Domain.Types.{MigrationRequest, mail, pending, running}
use groupware_migrator.State.Schema.{Store}
use groupware_migrator.State.Jobs.{get_job}
use groupware_migrator.State.Progress.{has_fingerprint, get_checkpoint}
use groupware_migrator.Engine.Connectors.{DestinationConnector}
use groupware_migrator.Engine.Idempotency.{build_message_fingerprint, message_key}
use groupware_migrator.Engine.Runner.Items.{
  is_mail, fingerprint_of, process_item, process_items, empty_tally,
}
use groupware_migrator.Domain.ToDict.{source_protocol_value, destination_protocol_value}
use groupware_migrator.Engine.Runner.Run.{run, run_job, run_body}
use groupware_migrator.Engine.Runner.Outcome.{Outcome, Reports, run-Outcome, run_job-Reports}
use groupware_migrator.Engine.Runner.Accounting.{Counted, process_items-accounting}
use groupware_migrator.Engine.Runner.Resume.{OnlySkipped, second_pass}
use groupware_migrator.Engine.Runner.Checkpoints.{failed_item_passed_over}
use groupware_migrator.Engine.Runner.Isolation.{SameJob, run_job-SameJob}
use groupware_migrator.Engine.Runner.Threshold.{EndsBelow, run_body-EndsBelow}
use groupware_migrator.Engine.Runner.DryRun.{run_body-Untouched}
use groupware_migrator.Tests.Fixtures.{
  test_library, request, item, items, inbox, source, mailbox, empty_store, job, store_of, run_state,
}

abbrev key : MigrationRequest → Result String
key request = ok "key"

abbrev never : ℕ → Bool
never k = false

abbrev j1_store : Store
j1_store = store_of (job "j1" pending ∷ job "j2" pending ∷ [])

abbrev accepting_all : DestinationConnector (List String)
accepting_all = mailbox ""

abbrev refusing_1 : DestinationConnector (List String)
refusing_1 = mailbox "1"

run_example :
    (run test_library key source accepting_all "j9" none never (request false) empty_store []).2
    ≡ "1" ∷ "2" ∷ []
unfolding run any_where find_where fingerprint_of build_message_fingerprint message_key decimal
    update_where
run_example = refl

run-Outcome_example :
    Outcome
      (request false)
      none
      empty_store
      []
      (run test_library key source accepting_all "j9" none never (request false) empty_store [])
run-Outcome_example =
    run-Outcome test_library key source accepting_all "j9" never (request false) empty_store [] none

run_job-Reports_example : Reports "j1" (
    run_job test_library key source refusing_1 "j1" true true
      (request false)
      []
      never
      (inbox ∷ [])
      j1_store
      [])
unfolding get_job find_where source_protocol_value destination_protocol_value
run_job-Reports_example =
    run_job-Reports test_library key source refusing_1 "j1" (request false) [] never (inbox ∷ [])
      true true j1_store [] refl ((_, refl), (_, refl))

process_items-accounting_example :
    Counted test_library refusing_1 "j1" (request false) 25 inbox empty_tally 0 2 (
      process_items test_library refusing_1 "j1"
        (request false)
        25
        inbox
        items
        none
        run_state
        empty_tally)
unfolding get_job find_where
process_items-accounting_example =
    process_items-accounting test_library refusing_1 "j1" (request false) 25 inbox empty_tally items
      none run_state empty_tally
      (record {
        row = job "j1" running;
        found = refl;
        migrated_count = refl;
        skipped_count = refl;
        failed_count = refl;
      })

second_pass_example :
    OnlySkipped test_library refusing_1 "j1"
      (request false)
      25
      inbox
      2
      (process_items test_library accepting_all "j1"
        (request false)
        25
        inbox
        items
        none
        run_state
        empty_tally).0
      empty_tally
      none
      (process_items test_library refusing_1 "j1"
        (request false)
        25
        inbox
        items
        none
        (process_items test_library accepting_all "j1"
          (request false)
          25
          inbox
          items
          none
          run_state
          empty_tally).0
        empty_tally)
unfolding process_items any_where fingerprint_of build_message_fingerprint message_key process_item
    is_mail decimal
second_pass_example =
    second_pass test_library accepting_all refusing_1 "j1" (request false) 25 inbox items run_state
      empty_tally empty_tally refl refl refl

failed_item_passed_over_example :
    let (r', t', stop) =
      process_items test_library refusing_1 "j1"
        (request false)
        25
        inbox
        (item "1" 65 ∷ item "2" 66 ∷ [])
        none
        run_state
        empty_tally in
    (stop ≡ none)
    × (get_checkpoint "j1" "INBOX" r'.store ≡ some "2")
    × (has_fingerprint "j1" (fingerprint_of test_library mail (item "1" 65)) r'.store ≡ false)
unfolding has_fingerprint fingerprint_of any_where build_message_fingerprint message_key is_mail
    decimal
failed_item_passed_over_example =
    failed_item_passed_over test_library refusing_1 "j1" (request false) 25 inbox (item "1" 65)
      (item "2" 66) run_state empty_tally (runtime_error "refused") (some "2") [] ("2" ∷ []) refl
      refl refl refl refl refl refl

run_job-SameJob_example :
    SameJob "j2" j1_store
      (run_job test_library key source accepting_all "j1" true true
        (request false)
        []
        never
        (inbox ∷ [])
        j1_store
        []).1
run_job-SameJob_example =
    run_job-SameJob test_library key source accepting_all "j1" "j2" true true (request false) []
      never (inbox ∷ []) j1_store [] refl

run_body-EndsBelow_example :
    let (r', flow) =
      run_body test_library source refusing_1 "j1"
        (request false)
        1
        []
        never
        (inbox ∷ [])
        (record { store = j1_store; destination = []; error_messages = []; run_failures = 0 }) in
    EndsBelow test_library source refusing_1 "j1" (request false) 1 [] r' flow
run_body-EndsBelow_example =
    run_body-EndsBelow test_library source refusing_1 "j1" (request false) 1 [] never (inbox ∷ [])
      j1_store [] (omega arith)

run_body-Untouched_example :
    let r' =
      (run_body test_library source accepting_all "j1"
        (request true)
        25
        []
        never
        (inbox ∷ [])
        run_state).0 in
    (r'.store.messages ≡ run_state.store.messages)
    × (r'.run_failures ≡ run_state.run_failures)
    × ((r'.destination ≡ run_state.destination)
        ⊎ (r'.destination ≡ (accepting_all.validate run_state.destination).1))
run_body-Untouched_example =
    run_body-Untouched test_library source accepting_all "j1" (request true) 25 [] refl never
      (inbox ∷ []) run_state
