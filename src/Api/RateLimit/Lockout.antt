-- ===== src/Api/RateLimit/Lockout.antt =====
-- api/rate_limit.py: how many attempts an address has, and how long it is locked.
use groupware_migrator.Base.{
  ℕ, ◌+◌, ◌≤◌, ◌<◌, String, ◌≡◌, refl, true, false, none, [], ◌∷◌, arith, ltb, lt→ltb, ◌==◌, nat_eq,
  string_eq, ==-refl, is_some, length, select_where,
}
use groupware_migrator.Base.Dict.{lookup, put, pop, lookup-put, lookup-pop}
use groupware_migrator.Api.RateLimit.{
  LoginRateLimiter, attempts_or_none, is_locked, recent, check_and_record, clear,
}

-- the number of attempts on record for an address
abbrev pub recorded : String → LoginRateLimiter → ℕ
recorded ip l = length (attempts_or_none (lookup ip l.attempts))

-- No address has more attempts on record than allowed.
pub record WithinLimit (l : LoginRateLimiter) : Type 0 where
  pub each : (ip : String) → recorded ip l ≤ l.max_attempts

locked_stays :
    (ip : String) (t : ℕ) (l : LoginRateLimiter)
    → is_locked ip t l ≡ true
    → (is_some (check_and_record ip t l).0 ≡ true) × ((check_and_record ip t l).1 ≡ l)
unfolding check_and_record
locked_stays ip t l h = (simp h refl, simp h refl)

-- the limiter once an address is locked
abbrev locked_out : String → ℕ → LoginRateLimiter → LoginRateLimiter
locked_out ip now l = record l {
  locked_until = put ip (now + l.lockout_seconds) l.locked_until;
  attempts = pop ip l.attempts;
}

locks-lem :
    (ip : String) (now : ℕ) (l : LoginRateLimiter)
    → is_locked ip now l ≡ false
    → ltb l.max_attempts (length (recent ip now l)) ≡ true
    → (check_and_record ip now l).1 ≡ locked_out ip now l
unfolding check_and_record
locks-lem ip now l free many = ground (arith, free, many)

locked_out-is_locked :
    (ip : String) (now t : ℕ) (l : LoginRateLimiter)
    → t < now + l.lockout_seconds
    → is_locked ip t (locked_out ip now l) ≡ true
unfolding is_locked
locked_out-is_locked ip now t l soon =
    rw (lookup-put ip ip (now + l.lockout_seconds) l.locked_until)
      (rw (==-refl ip) (lt→ltb _ _ soon))

-- An attempt beyond the limit, of an address that is not locked, locks it: every attempt before the
-- end of the lockout time is refused and leaves no trace.
pub check_and_record-locks :
    (ip : String) (now t : ℕ) (l : LoginRateLimiter)
    → is_locked ip now l ≡ false
    → l.max_attempts < length (recent ip now l)
    → t < now + l.lockout_seconds
    → let l' = (check_and_record ip now l).1 in
      (is_some (check_and_record ip t l').0 ≡ true) × ((check_and_record ip t l').1 ≡ l')
check_and_record-locks ip now t l free many soon =
    rw (locks-lem ip now l free (lt→ltb _ _ many))
      (locked_stays ip t (locked_out ip now l) (locked_out-is_locked ip now t l soon))

-- The attempts of one address change nothing for another.
pub check_and_record-other :
    (ip ip' : String) (now t : ℕ) (l : LoginRateLimiter)
    → (ip == ip') ≡ false
    → (is_locked ip' t (check_and_record ip now l).1 ≡ is_locked ip' t l)
      × (recent ip' t (check_and_record ip now l).1 ≡ recent ip' t l)
unfolding check_and_record is_locked recent
check_and_record-other ip ip' now t l differ = (
  ground (arith, differ, lookup-put ip ip' (now + l.lockout_seconds) l.locked_until),
  ground
      (arith, differ, lookup-pop ip ip' l.attempts, lookup-put ip ip' (recent ip now l) l.attempts),
)

-- A check keeps the limit on the recorded attempts, whatever its outcome.
pub check_and_record-WithinLimit :
    (ip : String) (now : ℕ) (l : LoginRateLimiter)
    → WithinLimit l
    → WithinLimit (check_and_record ip now l).1
unfolding check_and_record
check_and_record-WithinLimit ip now l h = record {
  each = λ j.
      ground
        (arith, h.each j, lookup-pop ip j l.attempts, lookup-put ip j (recent ip now l) l.attempts);
}

cleared :
    (ip : String) (now : ℕ) (l : LoginRateLimiter)
    → (is_locked ip now (clear ip l) ≡ false) × (recent ip now (clear ip l) ≡ now ∷ [])
unfolding is_locked recent clear select_where
cleared ip now l = (
  rw (lookup-pop ip ip l.locked_until) (rw (==-refl ip) refl),
  rw (lookup-pop ip ip l.attempts) (rw (==-refl ip) refl),
)

let_in :
    (ip : String) (now : ℕ) (l : LoginRateLimiter)
    → is_locked ip now l ≡ false
    → recent ip now l ≡ now ∷ []
    → 1 ≤ l.max_attempts
    → (check_and_record ip now l).0 ≡ none
unfolding check_and_record
let_in ip now l free one h =
    let few : ltb l.max_attempts (length (recent ip now l)) ≡ false = rw one (ground (arith, h)) in
    ground (arith, free, few)

-- After a login has succeeded, the next attempt is let in, if any is allowed at all.
pub check_and_record-clear :
    (ip : String) (now : ℕ) (l : LoginRateLimiter)
    → 1 ≤ l.max_attempts
    → (check_and_record ip now (clear ip l)).0 ≡ none
unfolding clear
check_and_record-clear ip now l h =
    let facts = cleared ip now l in let_in ip now (clear ip l) facts.0 facts.1 h
