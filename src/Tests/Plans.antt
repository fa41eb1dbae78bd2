-- ===== src/Tests/Plans.antt =====
-- The planner and the rate limiter at concrete inputs.
use groupware_migrator.Base.{
  String, ◌≡◌, refl, true, false, List, [], ◌∷◌, arith, nat_eq, string_eq, is_some, select_where,
  pos,
}
use groupware_migrator.Base.Dict.{lookup}
use groupware_migrator.Domain.Types.{CollectionSnapshot}
use groupware_migrator.Engine.Planner.{build_plan, filter_collections}
use groupware_migrator.Engine.Planner.Routes.{routes, routes_of, build_plan-routes}
use groupware_migrator.Api.RateLimit.{LoginRateLimiter, is_locked, recent, check_and_record}
use groupware_migrator.Api.RateLimit.Lockout.{
  WithinLimit, check_and_record-locks, check_and_record-WithinLimit,
}
use groupware_migrator.Tests.Fixtures.{request, source, inbox}

same : String → String
same s = s

abbrev snapshots : List CollectionSnapshot
snapshots = record { name = "INBOX"; estimated_items = pos 2 } ∷ []

build_plan-routes_example :
    routes (inbox ∷ [])
    ≡ routes_of (request false) (filter_collections same (request false) snapshots)
unfolding build_plan
build_plan-routes_example =
    build_plan-routes same (request false) source [] snapshots (inbox ∷ []) refl refl

abbrev limiter : LoginRateLimiter
limiter = record {
  max_attempts = 1;
  window_seconds = 300;
  lockout_seconds = 900;
  attempts = ("10.0.0.1", 5 ∷ []) ∷ [];
  locked_until = [];
}

check_and_record-locks_example :
    (is_some (check_and_record "10.0.0.1" 100 (check_and_record "10.0.0.1" 10 limiter).1).0 ≡ true)
    × ((check_and_record "10.0.0.1" 100 (check_and_record "10.0.0.1" 10 limiter).1).1
        ≡ (check_and_record "10.0.0.1" 10 limiter).1)
unfolding is_locked recent lookup select_where
check_and_record-locks_example =
    check_and_record-locks "10.0.0.1" 10 100 limiter refl (omega arith) (omega arith)

none_recorded : WithinLimit (record limiter { attempts = [] })
unfolding lookup
none_recorded = record { each = λ ip. omega arith }

check_and_record-WithinLimit_example :
    WithinLimit (check_and_record "10.0.0.1" 10 (record limiter { attempts = [] })).1
check_and_record-WithinLimit_example =
    check_and_record-WithinLimit "10.0.0.1" 10 (record limiter { attempts = [] }) none_recorded
