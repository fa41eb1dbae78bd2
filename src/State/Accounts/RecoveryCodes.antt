-- ===== src/State/Accounts/RecoveryCodes.antt =====
-- engine/state.py, `consume_totp_recovery_code`: recovery codes, used by one call after another and by two at once.
use mathlib.Core.Option
use groupware_migrator.Base.{
  Bool, ℕ, suc, String, ◌≡◌, refl, sym, ap, ◌∙◌, ◌≢◌, inl, inr, true, false, ◌||◌, Option, none,
  some, List, [], ◌∷◌, arith, Bool-cases, ◌==◌, nat_eq, string_eq, ==→≡, find_where,
  find_where-update_where, any_where, count_where,
}
use groupware_migrator.Engine.Idempotency.{Library}
use groupware_migrator.State.Schema.{UserRow, Store}
use groupware_migrator.State.Accounts.{
  user_is, get_user_by_id, update_users, remove_first, member, digest, checked_codes, read_codes,
  write_codes, recovery_of, consume_totp_recovery_code,
}

-- how often a text is in a list
abbrev pub occurrences : String → List String → ℕ
occurrences x xs = count_where (λ y. y == x) xs

occurrences_more :
    (x y : String) (ys : List String)
    → (y == x) ≡ true
    → occurrences x (y ∷ ys) ≡ suc (occurrences x ys)
unfolding count_where
occurrences_more x y ys e = rw e refl

occurrences_same :
    (x y : String) (ys : List String) → (y == x) ≡ false → occurrences x (y ∷ ys) ≡ occurrences x ys
unfolding count_where
occurrences_same x y ys e = rw e refl

member_none : (x : String) (ys : List String) → occurrences x ys ≡ 0 → member x ys ≡ false
unfolding any_where
member_none x [] h = refl
member_none x (y ∷ ys) h = elim (Bool-cases (y == x)) [
  | inl e ↦ absurd (omega (arith, h, occurrences_more x y ys e))
  | inr e ↦ rw e (member_none x ys (omega (arith, h, occurrences_same x y ys e)))
]

member_one : (x : String) (ys : List String) → occurrences x ys ≡ 1 → member x ys ≡ true
unfolding any_where count_where
member_one x [] h = absurd (omega (arith, h))
member_one x (y ∷ ys) h = elim (Bool-cases (y == x)) [
  | inl e ↦ rw e refl
  | inr e ↦ rw e (member_one x ys (omega (arith, h, occurrences_same x y ys e)))
]

member-remove_first :
    (x : String) (ys : List String) → occurrences x ys ≡ 1 → member x (remove_first x ys) ≡ false
unfolding any_where remove_first count_where
member-remove_first x [] h = absurd (omega (arith, h))
member-remove_first x (y ∷ ys) h = elim (Bool-cases (y == x)) [
  | inl e ↦ rw e (member_none x ys (omega (arith, h, occurrences_more x y ys e)))
  | inr e ↦ rw e (rw e (member-remove_first x ys (omega (arith, h, occurrences_same x y ys e))))
]

member-remove_first_ne :
    (x z : String) (ys : List String) → x ≢ z → member z (remove_first x ys) ≡ member z ys
unfolding any_where remove_first
member-remove_first_ne x z [] h = refl
member-remove_first_ne x z (y ∷ ys) h = elim (Bool-cases (y == x)) [
  | inl e ↦ rw e (ap (λ b. b || member z ys) (sym (other_text (==→≡ y x e))))
  | inr e ↦ rw e (ap (λ b. (y == z) || b) (member-remove_first_ne x z ys h))
]
  where
    other_text : y ≡ x → (y == z) ≡ false
    other_text e = elim (Bool-cases (y == z)) [
      | inl e' ↦ absurd (h (sym e ∙ ==→≡ y z e'))
      | inr e' ↦ e'
    ]

abbrev consume_from : Library → String → String → List String → Store → Store × Bool
consume_from lib user_id code codes s = write_codes lib user_id (checked_codes lib code codes) s

module _ (lib : Library) (user_id code : String) where
  recovery-consume_from :
      (codes : List String) (s : Store)
      → recovery_of lib (get_user_by_id user_id s) ≡ some codes
      → member (digest lib code) codes ≡ true
      → recovery_of lib (get_user_by_id user_id (consume_from lib user_id code codes s).0)
        ≡ some (remove_first (digest lib code) codes)
  unfolding write_codes checked_codes update_users get_user_by_id
  recovery-consume_from codes s h found = rw found (
      ap (recovery_of lib) (find_where-update_where (user_is user_id) _ s.users (λ x. refl))
      ∙ go (find_where (user_is user_id) s.users) h)
    where
      go :
          (user : Option UserRow)
          → recovery_of lib user ≡ some codes
          → recovery_of lib (
              Option.map
                (λ (row : UserRow). record row {
                  totp_recovery = some (remove_first (digest lib code) codes);
                })
                user)
            ≡ some (remove_first (digest lib code) codes)
      go none h = absurd cc
      go (some user) h = refl

  consume-codes :
      (code' : String) (codes : List String) (s : Store)
      → recovery_of lib (get_user_by_id user_id s) ≡ some codes
      → consume_totp_recovery_code lib user_id code' s ≡ consume_from lib user_id code' codes s
  unfolding consume_totp_recovery_code
  consume-codes code' codes s h = rw (h, read_codes) refl

  consume_from-flag :
      (code' : String) (codes : List String) (s : Store)
      → (consume_from lib user_id code' codes s).1 ≡ member (digest lib code') codes
  unfolding write_codes checked_codes
  consume_from-flag code' codes s = elim (Bool-cases (member (digest lib code') codes)) [
    | inl e ↦ rw e refl
    | inr e ↦ rw e refl
  ]

  consume-flag :
      (code' : String) (codes : List String) (s : Store)
      → recovery_of lib (get_user_by_id user_id s) ≡ some codes
      → (consume_totp_recovery_code lib user_id code' s).1 ≡ member (digest lib code') codes
  consume-flag code' codes s h =
      ap (λ r. r.1) (consume-codes code' codes s h) ∙ consume_from-flag code' codes s

  -- Where no other call comes between the read and the write of a call, a code whose digest the user has
  -- once is accepted, and refused by a later call; whether a later call accepts a code of another digest
  -- stays the same.
  pub consume_totp_recovery_code-once :
      (codes : List String) (s : Store)
      → recovery_of lib (get_user_by_id user_id s) ≡ some codes
      → occurrences (digest lib code) codes ≡ 1
      → let (s', accepted) = consume_totp_recovery_code lib user_id code s in
        (accepted ≡ true)
        × ((consume_totp_recovery_code lib user_id code s').1 ≡ false)
        × ((code' : String)
            → digest lib code ≢ digest lib code'
            → (consume_totp_recovery_code lib user_id code' s').1
              ≡ (consume_totp_recovery_code lib user_id code' s).1)
  consume_totp_recovery_code-once codes s h one =
      let found = member_one (digest lib code) codes one in
      let left = remove_first (digest lib code) codes in
      let after : recovery_of lib
            (get_user_by_id user_id (consume_totp_recovery_code lib user_id code s).0)
          ≡ some left =
        ap (λ r. recovery_of lib (get_user_by_id user_id r.0)) (consume-codes code codes s h)
        ∙ recovery-consume_from codes s h found in
      let s' = (consume_totp_recovery_code lib user_id code s).0 in
      (
        consume-flag code codes s h ∙ found,
        consume-flag code left s' after ∙ member-remove_first (digest lib code) codes one,
        λ code' differs.
            consume-flag code' left s' after
            ∙ member-remove_first_ne (digest lib code) (digest lib code') codes differs
            ∙ sym (consume-flag code' codes s h),
      )
