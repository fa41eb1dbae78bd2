-- ===== src/Api/RateLimit.antt =====
-- api/rate_limit.py: the sliding window over the login attempts of each address. Times are whole seconds.
pub mod Lockout
use groupware_migrator.Base.{
  ℕ, zero, suc, ◌+◌, ◌-◌, ◌*◌, ◌/◌, ◌%◌, ◌^◌, ◌≤◌, ◌<◌, min, max, String, ◌≡◌, refl, sym, ap, ◌∙◌,
  ◌≢◌, ◌↔◌, ◌⊎◌, inl, inr, Bool, true, false, not, ◌&&◌, ◌||◌, Option, none, some, List, [], ◌∷◌,
  ◌++◌, map, arith, ltb, leb, if◌then◌else◌, ltb→lt, leb→le, lt→ltb, Bool-cases, Option-cases, Eq,
  ◌==◌, nat_eq, string_eq, ==-refl, ==→≡, ==_sym, is_some, is_none, length, take, last,
  length-append, last-snoc, find_where, select_where, update_where, any_where, count_where,
  delete_where, All, All-append, length-update_where, any_where-append, count_where-le-length,
  All-select_where, length-take-le, Error, value_error, type_error, runtime_error, key_error,
  integrity_error, other, message, Result, ok, err, Result-cases, ◌>>=◌, ◌>>◌, ℤ, pos, negsuc,
  pos_part, at_least_one, le_ℕ, Json, null, bool, num, str, arr, obj, Items, nil, cons, Fields, end,
  field, get, strings, str_or_null, nat,
}
use groupware_migrator.Base.Dict.{lookup, put, pop}
use groupware_migrator.Base.Text.{◌<>◌, decimal}

pub record LoginRateLimiter : Type 0 where
  pub max_attempts : ℕ
  pub window_seconds : ℕ
  pub lockout_seconds : ℕ
  pub attempts : List (String × List ℕ)
  pub locked_until : List (String × ℕ)

-- `self._attempts.get(ip, [])`
abbrev pub attempts_or_none : Option (List ℕ) → List ℕ
attempts_or_none none = []
attempts_or_none (some times) = times

-- `now < locked_until`, with the default 0.0
abbrev pub is_before : ℕ → Option ℕ → Bool
is_before now none = false
is_before now (some until) = ltb now until

abbrev pub seconds_left : ℕ → Option ℕ → ℕ
seconds_left now none = 0
seconds_left now (some until) = until - now

unfoldable pub is_locked : String → ℕ → LoginRateLimiter → Bool
unfolding lookup
is_locked ip now l = is_before now (lookup ip l.locked_until)

-- the attempts of the address within the window, with this one
unfoldable pub recent : String → ℕ → LoginRateLimiter → List ℕ
unfolding lookup
recent ip now l =
    select_where (λ t. ltb now (t + l.window_seconds)) (attempts_or_none (lookup ip l.attempts))
    ++ now ∷ []

abbrev too_many : ℕ → String
too_many seconds = "Too many login attempts. Try again in " <> decimal seconds <> " seconds."

-- The text is the detail of the exception with status 429.
unfoldable pub check_and_record : String → ℕ → LoginRateLimiter → Option String × LoginRateLimiter
unfolding is_locked recent put pop decimal
check_and_record ip now l =
    if is_locked ip now l
    then (some (too_many (seconds_left now (lookup ip l.locked_until))), l)
    else if ltb l.max_attempts (length (recent ip now l))
    then (
      some (too_many l.lockout_seconds),
      record l {
        locked_until = put ip (now + l.lockout_seconds) l.locked_until;
        attempts = pop ip l.attempts;
      },
    )
    else (none, record l { attempts = put ip (recent ip now l) l.attempts })

unfoldable pub clear : String → LoginRateLimiter → LoginRateLimiter
unfolding pop
clear ip l = record l { attempts = pop ip l.attempts; locked_until = pop ip l.locked_until }
