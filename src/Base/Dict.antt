-- ===== src/Base/Dict.antt =====
-- A Python `dict` with string keys, as an association list.
use groupware_migrator.Base.{
  String, ◌≡◌, inl, inr, Option, none, some, List, [], ◌∷◌, arith, if◌then◌else◌, Bool-cases, ◌==◌,
  nat_eq, string_eq, All,
}

module _ {ℓ} {V : Type ℓ} where
  -- d.get(k)
  unfoldable pub lookup : String → List (String × V) → Option V
  lookup k [] = none
  lookup k ((j, v) ∷ d) = if j == k then some v else lookup k d

  -- d.pop(k, None)
  unfoldable pub pop : String → List (String × V) → List (String × V)
  pop k [] = []
  pop k ((j, v) ∷ d) = let rest = pop k d in if j == k then rest else (j, v) ∷ rest

  -- d[k] = v, where the order of the entries does not matter
  unfoldable pub put : String → V → List (String × V) → List (String × V)
  unfolding pop
  put k v d = (k, v) ∷ pop k d

  pub lookup-pop :
      (k j : String) (d : List (String × V))
      → lookup j (pop k d) ≡ (if k == j then none else lookup j d)
  unfolding lookup pop
  lookup-pop k j [] = ground arith
  lookup-pop k j ((i, v) ∷ d) =
      ground (
        arith,
        lookup-pop k j d,
        string_eq.beq_iff i k,
        string_eq.beq_iff i j,
        string_eq.beq_iff k j,
      )

  pub lookup-put :
      (k j : String) (v : V) (d : List (String × V))
      → lookup j (put k v d) ≡ (if k == j then some v else lookup j d)
  unfolding lookup put
  lookup-put k j v d = ground (arith, lookup-pop k j d)

  -- A predicate on the values that the dictionary holds.
  pub All-pop {κ} :
      (P : String × V → Type κ) (k : String) (d : List (String × V)) → All P d → All P (pop k d)
  unfolding pop
  All-pop P k [] h = tt
  All-pop P k ((j, v) ∷ d) h = elim (Bool-cases (j == k)) [
    | inl e ↦ rw e (All-pop P k d h.1)
    | inr e ↦ rw e (h.0, All-pop P k d h.1)
  ]
