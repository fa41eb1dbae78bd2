-- ===== src/Engine/Cron/First.antt =====
-- engine/cron.py, `cron_next`: the search returns the first time that matches.
use groupware_migrator.Base.{
  ℕ, zero, suc, ◌+◌, ◌≤◌, ◌<◌, String, ◌≡◌, refl, sym, ap, ◌∙◌, ◌≢◌, ◌⊎◌, inl, inr, true, false,
  arith, ltb, ltb→lt, Bool-cases, nat_eq, string_eq, Error, ok, err, Result-cases,
}
use groupware_migrator.Domain.FromDict.{Builtins}
use groupware_migrator.Engine.Cron.{
  CronFields, Calendar, Verdict, month_differs, day_differs, hour_differs, minute_differs, fits,
  verdict, advance, cron_fields, search, horizon, cron_next,
}
use groupware_migrator.Engine.Cron.Window.{IsCalendar, advance-later, verdict-same}

-- A time that fits, with no other between the start and it.
pub record IsFirst (py : Builtins) (cal : Calendar) (c : CronFields) (t u : ℕ) : Type 0 where
  pub matching : verdict py cal c u ≡ ok fits
  pub not_before : t ≤ u
  pub none_between : (w : ℕ) → t ≤ w → w < u → verdict py cal c w ≢ ok fits

ok_same : (v w : Verdict) → ok v ≡ ok w → v ≡ w
ok_same v w e = cc

not_ltb : {m n : ℕ} → ltb m n ≡ false → n ≤ m
not_ltb after = ground arith

same_time : (m n : ℕ) → ltb m n ≡ false → m ≤ n → m ≡ n
same_time m n after le = omega (arith, not_ltb after, le)

module _ (py : Builtins) (cal : Calendar) (laws : IsCalendar cal) (c : CronFields) where
  search_on :
      (v : Verdict) (t u : ℕ)
      → v ≢ fits
      → verdict py cal c t ≡ ok v
      → IsFirst py cal c (advance py cal c v t) u
      → IsFirst py cal c t u
  search_on v t u differs h first = record {
    matching = first.matching;
    not_before = omega (arith, advance-later py cal laws c v t differs, first.not_before);
    none_between = λ w le lt agrees. elim (Bool-cases (ltb w (advance py cal c v t))) [
      | inl before ↦ differs (
          ok_same v fits (sym (verdict-same py cal laws c t w v h le (ltb→lt w _ before)) ∙ agrees))
      | inr after ↦ first.none_between w (not_ltb after) lt agrees
    ];
  }

  search-suc :
      (expr : String) (n t : ℕ) (v : Verdict)
      → v ≢ fits
      → verdict py cal c t ≡ ok v
      → search py cal c expr (suc n) t ≡ search py cal c expr n (advance py cal c v t)
  unfolding search
  search-suc expr n t fits differs h = absurd (differs refl)
  search-suc expr n t month_differs differs h = rw (h, search) refl
  search-suc expr n t day_differs differs h = rw (h, search) refl
  search-suc expr n t hour_differs differs h = rw (h, search) refl
  search-suc expr n t minute_differs differs h = rw (h, search) refl

  search-fits :
      (expr : String) (n t : ℕ)
      → verdict py cal c t ≡ ok fits
      → search py cal c expr (suc n) t ≡ ok t
  unfolding search
  search-fits expr n t h = rw (h, search) refl

  search-fails :
      (expr : String) (n t : ℕ) (e : Error)
      → verdict py cal c t ≡ err e
      → search py cal c expr (suc n) t ≡ err e
  unfolding search
  search-fails expr n t e h = rw (h, search) refl

  is_fits : (v : Verdict) → (v ≡ fits) ⊎ (v ≢ fits)
  is_fits fits = inl refl
  is_fits month_differs = inr (λ e. cc)
  is_fits day_differs = inr (λ e. cc)
  is_fits hour_differs = inr (λ e. cc)
  is_fits minute_differs = inr (λ e. cc)

  search-IsFirst :
      (expr : String) (n t u : ℕ) → search py cal c expr n t ≡ ok u → IsFirst py cal c t u
  unfolding search
  search-IsFirst expr zero t u h = absurd cc
  search-IsFirst expr (suc n) t u h = elim (Result-cases (verdict py cal c t)) [
    | inl (e, fails) ↦ absurd (err_ok (sym (search-fails expr n t e fails) ∙ h))
    | inr (v, agrees) ↦ elim (is_fits v) [
      | inl fitting ↦ here (agrees ∙ ap ok fitting)
      | inr differs ↦ search_on v t u differs agrees (
          search-IsFirst expr n (advance py cal c v t) u
            (sym (search-suc expr n t v differs agrees) ∙ h))
    ]
  ]
    where
      err_ok : {e : Error} → err e ≢ ok u
      err_ok h = cc

      here : verdict py cal c t ≡ ok fits → IsFirst py cal c t u
      here agrees = rw (sym (same (sym (search-fits expr n t agrees) ∙ h))) record {
        matching = agrees;
        not_before = omega arith;
        none_between = λ w le lt. absurd (omega (arith, le, lt));
      }
        where
          same : ok t ≡ ok u → t ≡ u
          same e = cc

  -- No test of a time from `t` on and before `u` raises an exception.
  abbrev pub Readable : ℕ → ℕ → Type 0
  Readable t u = (w : ℕ) → t ≤ w → w < u → (v : Verdict) × (verdict py cal c w ≡ ok v)

  search-finds :
      (expr : String) (n t u : ℕ)
      → verdict py cal c u ≡ ok fits
      → t ≤ u
      → u < t + n
      → Readable t u
      → (r : ℕ) × (search py cal c expr n t ≡ ok r)
  search-finds expr zero t u fitting le lt readable = absurd (omega (arith, le, lt))
  search-finds expr (suc n) t u fitting le lt readable =
      let (v, agrees) = here (Bool-cases (ltb t u)) in
      elim (is_fits v) [
        | inl same ↦ (t, search-fits expr n t (agrees ∙ ap ok same))
        | inr differs ↦
            let more : t < advance py cal c v t = advance-later py cal laws c v t differs in
            let found =
              search-finds expr n (advance py cal c v t) u fitting
                (reached v agrees differs (Bool-cases (ltb u (advance py cal c v t))))
                (omega (arith, lt, more))
                (λ w from before. readable w (omega (arith, from, more)) before) in
            (found.0, search-suc expr n t v differs agrees ∙ found.1)
      ]
    where
      here : ((ltb t u ≡ true) ⊎ (ltb t u ≡ false)) → (v : Verdict) × (verdict py cal c t ≡ ok v)
      here (inl before) = readable t (omega arith) (ltb→lt t u before)
      here (inr after) = (fits, rw (same_time t u after le) fitting)

      reached :
          (v : Verdict)
          → verdict py cal c t ≡ ok v
          → v ≢ fits
          → ((ltb u (advance py cal c v t) ≡ true) ⊎ (ltb u (advance py cal c v t) ≡ false))
          → advance py cal c v t ≤ u
      reached v agrees differs (inl before) = absurd (
          differs (
            ok_same v fits
              (sym (verdict-same py cal laws c t u v agrees le (ltb→lt _ _ before)) ∙ fitting)))
      reached v agrees differs (inr after) = not_ltb after

-- If a next run is returned, the expression has five fields, and the run is later than `after`, matches,
-- and has no matching time between. The calendar's months begin one after the other.
pub cron_next-IsFirst :
    (py : Builtins) (cal : Calendar) (laws : IsCalendar cal) (expr : String) (after u : ℕ)
    → cron_next py cal expr after ≡ ok u
    → (c : CronFields) × (cron_fields expr ≡ ok c) × IsFirst py cal c (after + 1) u
unfolding cron_next
cron_next-IsFirst py cal laws expr after u h = elim (Result-cases (cron_fields expr)) [
  | inl (e, fails) ↦ absurd (fail e (rw fails refl ∙ h))
  | inr (c, parsed) ↦ (
    c,
    parsed,
    search-IsFirst py cal laws c expr horizon (after + 1) u (sym (rw parsed refl) ∙ h),
  )
]
  where
    fail : (e : Error) → err e ≢ ok u
    fail e h = cc

-- If an expression of five fields matches a time within the horizon, and no test of an earlier time
-- raises an exception, there is a next run, no later than that time.
pub cron_next-finds :
    (py : Builtins) (cal : Calendar) (laws : IsCalendar cal) (expr : String) (c : CronFields)
    (after u : ℕ)
    → cron_fields expr ≡ ok c
    → verdict py cal c u ≡ ok fits
    → after < u
    → u ≤ after + horizon
    → Readable py cal laws c (after + 1) u
    → (r : ℕ) × (cron_next py cal expr after ≡ ok r) × (r ≤ u)
unfolding cron_next
cron_next-finds py cal laws expr c after u parsed fitting later near readable =
    let found =
      search-finds py cal laws c expr horizon (after + 1) u fitting (omega (arith, later))
        (omega (arith, near)) readable in
    let first = search-IsFirst py cal laws c expr horizon (after + 1) found.0 found.1 in
    (found.0, rw parsed found.1, not_later first (Bool-cases (ltb u found.0)))
  where
    not_later :
        {r : ℕ} → IsFirst py cal c (after + 1) r → ((ltb u r ≡ true) ⊎ (ltb u r ≡ false)) → r ≤ u
    not_later first (inl before) =
        absurd (first.none_between u (omega (arith, later)) (ltb→lt _ _ before) fitting)
    not_later first (inr later) = not_ltb later
