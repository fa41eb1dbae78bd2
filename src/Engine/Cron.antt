-- ===== src/Engine/Cron.antt =====
-- engine/cron.py: cron expressions and intervals.
pub mod Window
pub mod First
use groupware_migrator.Base.{
  nat_eq, string_eq, ◌>>=◌, ℕ, zero, suc, ◌+◌, ◌-◌, ◌*◌, ◌/◌, ◌%◌, ◌<◌, String, Bool, true, false,
  not, ◌&&◌, ◌||◌, Option, none, some, List, [], ◌∷◌, leb, if◌then◌else◌, ◌==◌, last, Error,
  value_error, other, Result, ok, err, ◌>>=◌, ◌>>◌, ℤ, pos, negsuc, le_ℕ,
}
use groupware_migrator.Base.Text.{strip, ◌<>◌}
use groupware_migrator.Base.Split.{split_on, contains, cut_at, first_piece, words}
use groupware_migrator.Domain.FromDict.{Builtins}

-- start <= value
abbrev starts_by : ℤ → ℕ → Bool
starts_by start value = le_ℕ start value

-- value - start, where it is no less than nothing
abbrev distance : ℤ → ℕ → ℕ
distance (pos start) value = value - start
distance (negsuc start) value = value + start + 1

-- (value - start) % step == 0: the sign of the step does not matter.
unfoldable pub divides : ℤ → ℕ → Result Bool
divides (pos zero) n = err (other "integer modulo by zero")
divides (pos (suc k)) n = ok (n % suc k == 0)
divides (negsuc k) n = ok (n % suc k == 0)

-- value == i
abbrev equals : ℤ → ℕ → Bool
equals (pos n) value = n == value
equals (negsuc n) value = false

-- value <= i
abbrev at_most : ℕ → ℤ → Bool
at_most value (pos n) = leb value n
at_most value (negsuc n) = false

module _ (py : Builtins) where
  unfoldable pub step_start : String → ℕ → Result ℤ
  unfolding first_piece
  step_start base min_val =
      if base == "*" || base == "" then ok (pos min_val) else py.int_of_text (first_piece b'-' base)

  unfoldable pub step_matches : String → ℕ → ℕ → Result Bool
  unfolding cut_at step_start divides
  step_matches part value min_val = do
    step ← py.int_of_text (cut_at b'/' part).1
    start ← step_start (cut_at b'/' part).0 min_val
    if starts_by start value then divides step (distance start value) else ok false

  -- `int(lo) <= value <= int(hi)` reads the second number only if the first comparison holds.
  unfoldable pub range_matches : String → ℕ → Result Bool
  unfolding cut_at
  range_matches part value = do
    lo ← py.int_of_text (cut_at b'-' part).0
    if le_ℕ lo value
        then (py.int_of_text (cut_at b'-' part).1 >>= λ hi. ok (at_most value hi))
        else ok false

  unfoldable pub part_matches : String → ℕ → ℕ → Result Bool
  unfolding contains step_matches range_matches
  part_matches part value min_val =
      if contains b'/' part
      then step_matches part value min_val
      else if contains b'-' part
      then range_matches part value
      else (py.int_of_text part >>= λ i. ok (equals i value))

  -- the loop over the parts, which ends at the first that matches
  unfoldable pub any_part : List String → ℕ → ℕ → Result Bool
  unfolding part_matches
  any_part [] value min_val = ok false
  any_part (part ∷ parts) value min_val = do
    found ← part_matches part value min_val
    if found then ok true else any_part parts value min_val

  unfoldable pub matches : String → ℕ → ℕ → Result Bool
  unfolding split_on any_part
  matches text value min_val =
      if text == "*" then ok true else any_part (split_on b',' text) value min_val

pub record CronFields : Type 0 where
  pub minute : String
  pub hour : String
  pub dom : String
  pub month : String
  pub dow : String

unfoldable pub cron_fields : String → Result CronFields
unfolding words strip
cron_fields expr = go (words (strip expr))
  where
    go : List String → Result CronFields
    go (a ∷ b ∷ c ∷ d ∷ e ∷ []) = ok (record { minute = a; hour = b; dom = c; month = d; dow = e })
    go _ = err (value_error ("Cron expression must have 5 fields: '" <> expr <> "'"))

-- What `datetime` knows of the days, counted from 1970-01-01: the month, the day of the month, and the
-- first day of the following month.
pub record Calendar : Type 0 where
  pub month : ℕ → ℕ
  pub day_of_month : ℕ → ℕ
  pub next_month : ℕ → ℕ

-- A time is a number of minutes since 1970-01-01 00:00 UTC.
abbrev pub day_of : ℕ → ℕ
day_of t = t / 1440

abbrev pub hour_of : ℕ → ℕ
hour_of t = t / 60 % 24

abbrev pub minute_of : ℕ → ℕ
minute_of t = t % 60

-- `(dt.weekday() + 1) % 7`: day 0 was a Thursday, which is 3 in Python.
abbrev pub cron_dow : ℕ → ℕ
cron_dow d = ((d + 3) % 7 + 1) % 7

-- which `if` of the loop's body is taken
pub data Verdict : Type 0 where
  month_differs day_differs hour_differs minute_differs fits : Verdict

module _ (py : Builtins) (cal : Calendar) (c : CronFields) where
  unfoldable pub day_ok : ℕ → Result Bool
  day_ok d =
      let dom_restricted = not (c.dom == "*") in
      let dow_restricted = not (c.dow == "*" || c.dow == "?") in
      let by_dow = matches py c.dow (cron_dow d) 0 in
      if dom_restricted && dow_restricted
      then (matches py c.dom (cal.day_of_month d) 1 >>= λ found. if found then ok true else by_dow)
      else if dom_restricted
      then matches py c.dom (cal.day_of_month d) 1
      else if dow_restricted
      then by_dow
      else ok true

  -- The four tests, each made only if the one before it holds.
  unfoldable pub verdict : ℕ → Result Verdict
  verdict t = do
    in_month ← matches py c.month (cal.month (day_of t)) 1
    if in_month
        then (day_ok (day_of t) >>= λ on_day.
            if on_day
            then (matches py c.hour (hour_of t) 0 >>= λ in_hour.
                if in_hour
                then (matches py c.minute (minute_of t) 0 >>= λ in_minute.
                    ok (if in_minute then fits else minute_differs))
                else ok hour_differs)
            else ok day_differs)
        else ok month_differs

  unfoldable pub advance : Verdict → ℕ → ℕ
  advance month_differs t = cal.next_month (day_of t) * 1440
  advance day_differs t = (day_of t + 1) * 1440
  advance hour_differs t = (t / 60 + 1) * 60
  advance minute_differs t = t + 1
  advance fits t = t

  -- `for _ in range(n)`
  unfoldable pub search : String → ℕ → ℕ → Result ℕ
  search expr zero t =
      err (value_error ("No matching datetime found for cron expression: '" <> expr <> "'"))
  search expr (suc n) t = elim (verdict t) [
    | err e ↦ err e
    | ok fits ↦ ok t
    | ok month_differs ↦ search expr n (advance month_differs t)
    | ok day_differs ↦ search expr n (advance day_differs t)
    | ok hour_differs ↦ search expr n (advance hour_differs t)
    | ok minute_differs ↦ search expr n (advance minute_differs t)
  ]

-- `range(366 * 5 * 24 * 60)`
abbrev pub horizon : ℕ
horizon = 366 * 5 * 24 * 60

unfoldable pub cron_next : Builtins → Calendar → String → ℕ → Result ℕ
cron_next py cal expr after = do c ← cron_fields expr; search py cal c expr horizon (after + 1)

-- `int(expr[:-1]) * k`
abbrev times : ℕ → ℤ → ℤ
times k (pos n) = pos (n * k)
times zero (negsuc n) = pos 0
times (suc k) (negsuc n) = negsuc (n * suc k + k)

abbrev unknown_interval : String → Error
unknown_interval expr =
    value_error ("Unknown interval format: '" <> expr <> "' (expected e.g. '30m', '6h', '1d')")

-- the last character and what stands before it
unfoldable pub unsnoc : String → Option (String × String)
unsnoc String.[] = none
unsnoc (String.◌∷◌ c s) = elim (unsnoc s) [
  | none ↦ some ("", String.◌∷◌ c "")
  | some (front, last) ↦ some (String.◌∷◌ c front, last)
]

unfoldable pub parse_interval_seconds : Builtins → String → Result ℤ
unfolding unsnoc strip
parse_interval_seconds py expr = elim (unsnoc (py.lower (strip expr))) [
  | none ↦ err (unknown_interval expr)
  | some (number, unit) ↦
      if unit == "d"
      then (py.int_of_text number >>= λ i. ok (times 86400 i))
      else if unit == "h"
      then (py.int_of_text number >>= λ i. ok (times 3600 i))
      else if unit == "m"
      then (py.int_of_text number >>= λ i. ok (times 60 i))
      else if unit == "s"
      then py.int_of_text number
      else err (unknown_interval expr)
]
