-- ===== src/State/Listings/Kept.antt =====
-- engine/state.py, `cleanup_old_records`: what is kept and what is counted.
use groupware_migrator.Base.{
  ℕ, ◌+◌, ◌-◌, ◌*◌, ◌≤◌, String, ◌≡◌, refl, sym, ap, ◌∙◌, ◌⊎◌, inl, inr, Bool, true, false, ◌&&◌,
  some, List, [], ◌∷◌, arith, ltb, Bool-cases, nat_eq, string_eq, length, find_where, select_where,
  count_where, delete_where, ℤ, at_least_one,
}
use groupware_migrator.State.Schema.{JobRow, Store}
use groupware_migrator.State.Jobs.{job_is, get_job}
use groupware_migrator.State.Listings.{is_over, is_expired_job, day, cutoff_of, cleanup_old_records}

some_same {ℓ} : {A : Type ℓ} {a b : A} → some a ≡ some b → a ≡ b
some_same h = cc

module _ {ℓ} {A : Type ℓ} (q : A → Bool) where
  deleted_first : (x : A) (xs : List A) → q x ≡ true → delete_where q (x ∷ xs) ≡ delete_where q xs
  unfolding select_where
  deleted_first x xs e = rw e refl

  kept_first : (x : A) (xs : List A) → q x ≡ false → delete_where q (x ∷ xs) ≡ x ∷ delete_where q xs
  unfolding select_where
  kept_first x xs e = rw e refl

  find_first : (p : A → Bool) (x : A) (xs : List A) → p x ≡ true → find_where p (x ∷ xs) ≡ some x
  unfolding find_where
  find_first p x xs e = rw e refl

  find_later :
      (p : A → Bool) (x : A) (xs : List A) → p x ≡ false → find_where p (x ∷ xs) ≡ find_where p xs
  unfolding find_where
  find_later p x xs e = rw e refl

  find_kept :
      (p : A → Bool) (xs : List A) (x : A)
      → find_where p xs ≡ some x
      → q x ≡ false
      → find_where p (delete_where q xs) ≡ some x
  unfolding find_where select_where
  find_kept p [] x h kept = absurd cc
  find_kept p (y ∷ ys) x h kept = elim (Bool-cases (p y)) [
    | inl e ↦
        let same : y ≡ x = some_same (sym (find_first p y ys e) ∙ h) in
        ap (find_where p) (kept_first y ys (ap q same ∙ kept))
        ∙ find_first p y (delete_where q ys) e
        ∙ ap some same
    | inr e ↦
        let rest = find_kept p ys x (sym (find_later p y ys e) ∙ h) kept in
        elim (Bool-cases (q y)) [
          | inl e' ↦ ap (find_where p) (deleted_first y ys e') ∙ rest
          | inr e' ↦
              ap (find_where p) (kept_first y ys e') ∙ find_later p y (delete_where q ys) e ∙ rest
        ]
  ]

  delete_count : (xs : List A) → length (delete_where q xs) + count_where q xs ≡ length xs
  unfolding select_where count_where
  delete_count [] = omega arith
  delete_count (x ∷ xs) = elim (Bool-cases (q x)) [
    | inl e ↦ rw e (omega (arith, delete_count xs))
    | inr e ↦ rw e (omega (arith, delete_count xs))
  ]

-- A job that is not over, or that has ended within the given number of days, at least one.
pub IsRecent : ℤ → ℕ → JobRow → Type 0
IsRecent days now row =
    (is_over row.status ≡ false)
    ⊎ ((t : ℕ) × (row.finished_at ≡ some t) × (now ≤ t + at_least_one days * day))

recent_kept :
    (days : ℤ) (now : ℕ) (row : JobRow)
    → IsRecent days now row
    → is_expired_job (cutoff_of now days) row ≡ false
unfolding IsRecent cutoff_of
recent_kept days now row (inl going) = rw going refl
recent_kept days now row (inr (t, finished, near)) =
    rw finished
      (over (is_over row.status) (ltb t (now - at_least_one days * day)) (not_before t near))
  where
    over : (a b : Bool) → b ≡ false → (a && b) ≡ false
    over a b h = ground arith

    not_before :
        (t : ℕ) → now ≤ t + at_least_one days * day → ltb t (now - at_least_one days * day) ≡ false
    not_before t near = ground arith

-- The clean-up keeps each job that is not over or has ended within the given number of days, at least
-- one, and its numbers are those of the rows that are gone.
pub cleanup_old_records-keeps :
    (days : ℤ) (s : Store)
    → let (s', counts) = cleanup_old_records days s in
      ((job_id : String) (row : JobRow)
        → get_job job_id s ≡ some row
        → IsRecent days s.clock row
        → get_job job_id s' ≡ some row)
      × (length s'.jobs + counts.jobs_deleted ≡ length s.jobs)
      × (length s'.batches + counts.batches_deleted ≡ length s.batches)
      × (length s'.admin_audit_events + counts.admin_events_deleted ≡ length s.admin_audit_events)
unfolding cleanup_old_records get_job
cleanup_old_records-keeps days s = (
  λ job_id row h recent.
      find_kept (is_expired_job (cutoff_of s.clock days)) (job_is job_id) s.jobs row h
        (recent_kept days s.clock row recent),
  delete_count _ s.jobs,
  delete_count _ s.batches,
  delete_count _ s.admin_audit_events,
)
