-- ===== src/Base/Keyed.antt =====
-- Tables whose rows are found by a key: lookups after an update, an insertion and an upsert.
use mathlib.Core.Option
use groupware_migrator.Base.{
  Eq, ◌==◌, Bool, true, ◌&&◌, ◌≡◌, refl, ap, ◌↔◌, inl, inr, Bool-cases, Option, none, some, List,
  [], ◌∷◌, ◌++◌, arith, is_some, find_where, any_where, update_where, if◌then◌else◌,
}

-- A key of two columns.
module _ {ℓ} {A B : Type ℓ} ⦃e : Eq A⦄ ⦃f : Eq B⦄ where
  abbrev pair_beq : A × B → A × B → Bool
  pair_beq p q = p.0 == q.0 && p.1 == q.1

  pub pair_beq_iff : (p q : A × B) → (pair_beq p q ≡ true) ↔ (p ≡ q)
  pair_beq_iff p q = (
    λ h. both h,
    λ h. ground (
      arith,
      (e.beq_iff p.0 q.0).1 (ap (λ (x : A × B). x.0) h),
      (f.beq_iff p.1 q.1).1 (ap (λ (x : A × B). x.1) h),
    ),
  )
    where
      both : pair_beq p q ≡ true → p ≡ q
      both h = ground (arith, e.beq_iff p.0 q.0, f.beq_iff p.1 q.1)

  instance abbrev pub pair_eq : Eq (A × B)
  pair_eq = record { beq = pair_beq; beq_iff = pair_beq_iff }

module _ {ℓ κ} {A : Type ℓ} {K : Type κ} ⦃e : Eq K⦄ (key : A → K) where
  abbrev pub at_key : K → A → Bool
  at_key k x = key x == k

  -- UPDATE ... WHERE key = k, as a lookup of any key sees it.
  pub find_where-update :
      (k j : K) (f : A → A) (xs : List A)
      → ((x : A) → key (f x) ≡ key x)
      → find_where (at_key j) (update_where (at_key k) f xs)
        ≡ (if k == j then Option.map f (find_where (at_key j) xs) else find_where (at_key j) xs)
  unfolding find_where update_where
  find_where-update k j f [] keep = elim (Bool-cases (k == j)) [
    | inl h ↦ rw h refl
    | inr h ↦ rw h refl
  ]
  find_where-update k j f (x ∷ xs) keep = ground (
    arith,
    e.beq_iff (key x) k,
    e.beq_iff (key x) j,
    e.beq_iff k j,
    keep x,
    find_where-update k j f xs keep,
  )

  pub find_where-snoc :
      (j : K) (xs : List A) (y : A)
      → find_where (at_key j) (xs ++ y ∷ []) ≡ elim (find_where (at_key j) xs) [
        | some x ↦ some x
        | none ↦ if key y == j then some y else none
      ]
  unfolding find_where
  find_where-snoc j [] y = refl
  find_where-snoc j (x ∷ xs) y = ground (arith, find_where-snoc j xs y)

  pub any_where-find :
      (k : K) (xs : List A) → any_where (at_key k) xs ≡ is_some (find_where (at_key k) xs)
  unfolding any_where find_where
  any_where-find k [] = refl
  any_where-find k (x ∷ xs) = ground (arith, any_where-find k xs)

  -- INSERT ... ON CONFLICT(key) DO UPDATE
  abbrev pub upsert : K → (A → A) → A → List A → List A
  upsert k f new xs =
      if any_where (at_key k) xs then update_where (at_key k) f xs else xs ++ new ∷ []

  abbrev pub written : (A → A) → A → Option A → A
  written f new none = new
  written f new (some x) = f x

  pub find_where-upsert :
      (k j : K) (f : A → A) (new : A) (xs : List A)
      → ((x : A) → key (f x) ≡ key x)
      → key new ≡ k
      → find_where (at_key j) (upsert k f new xs) ≡ (
          if k == j
          then some (written f new (find_where (at_key k) xs))
          else find_where (at_key j) xs)
  find_where-upsert k j f new xs keep at = ground (
    arith,
    e.beq_iff k j,
    any_where-find k xs,
    find_where-update k j f xs keep,
    find_where-snoc j xs new,
  )
