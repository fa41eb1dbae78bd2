-- ===== src/Engine/Batch/Precedence.antt =====
-- engine/batch.py, `_apply_row_overrides`: the usernames of the row come first.
use groupware_migrator.Base.{
  ℕ, String, ◌≡◌, refl, sym, ap, ◌∙◌, ◌≢◌, inl, inr, Bool, true, false, ◌||◌, some, List, [], ◌∷◌,
  arith, if◌then◌else◌, Bool-cases, ◌==◌, nat_eq, string_eq, ==-refl, ==→≡, any_where, ok, Json,
  bool, str, obj, Fields, end, field, get,
}
use groupware_migrator.Base.Text.{◌<>◌}
use groupware_migrator.Base.Ensures.{Ensures, Ensures-ok, Ensures-bind}
use groupware_migrator.Domain.FromDict.{Builtins, get_or, truth, fields_of}
use groupware_migrator.Engine.Batch.Texts.{Row, row_value, parse_bool, set_field}
use groupware_migrator.Engine.Batch.Overrides.{
  parts_of, assign, same_text, override, override_in, override_port, override_all, credentials,
  authentication, override_bool, override_connection, override_source, override_destination,
  override_mapping, override_options, has_name, named, apply_row_overrides,
}

if_twice {ℓ} :
    {A : Type ℓ} (b : Bool) (x y z : A)
    → (if b then x else z) ≡ (if b then x else (if b then y else z))
if_twice true x y z = refl
if_twice false x y z = refl

-- Two tests that do not both hold may be made in either order.
if_swap {ℓ} :
    {A : Type ℓ} (a b : Bool) (x y z : A)
    → (a ≡ true → b ≡ false)
    → (if a then x else (if b then y else z)) ≡ (if b then y else (if a then x else z))
if_swap true true x y z apart = absurd (cc (apart refl))
if_swap true false x y z apart = refl
if_swap false b x y z apart = refl

get-set_field :
    (k j : String) (v : Json) (fs : Fields)
    → get k (set_field j v fs) ≡ (if j == k then some v else get k fs)
unfolding get set_field
get-set_field k j v end = refl
get-set_field k j v (field i w fs) = elim (Bool-cases (i == j)) [
  | inl e ↦ rw e (rw (==→≡ i j e) (if_twice (j == k) (some v) (some w) (get k fs)))
  | inr e ↦ rw e (
      ap (λ r. if i == k then some w else r) (get-set_field k j v fs)
      ∙ if_swap (i == k) (j == k) (some w) (some v) (get k fs) (apart e))
]
  where
    true_false : true ≢ false
    true_false h = cc

    apart : (i == j) ≡ false → (i == k) ≡ true → (j == k) ≡ false
    apart e e' = elim (Bool-cases (j == k)) [
      | inr e'' ↦ e''
      | inl e'' ↦ absurd (true_false (sym (rw (==→≡ i k e' ∙ sym (==→≡ j k e'')) (==-refl j)) ∙ e))
    ]

-- A dictionary with a value at a key.
pub record HasField (k : String) (v part : Json) : Type 0 where
  pub fields : Fields
  pub is_dict : part ≡ obj fields
  pub value : get k fields ≡ some v

module _ (py : Builtins) where
  assign-sets : (k : String) (v part : Json) → Ensures (HasField k v) (assign py k v part)
  unfolding assign
  assign-sets k v part = Ensures-bind (fields_of py part) _ λ fields e. Ensures-ok _ (record {
    fields = set_field k v fields;
    is_dict = refl;
    value = get-set_field k k v fields ∙ rw (==-refl k) refl;
  })

  assign-keeps :
      (k j : String) (v w part : Json)
      → (j == k) ≡ false
      → HasField k v part
      → Ensures (HasField k v) (assign py j w part)
  unfolding assign fields_of
  assign-keeps k j v w part differs h = rw h.is_dict (
      Ensures-ok _ (record {
        fields = set_field j w h.fields;
        is_dict = refl;
        value = get-set_field k j w h.fields ∙ rw differs h.value;
      }))

  override-keeps :
      (row : Row) (names : List String) (f : String → String) (k j : String) (v part : Json)
      → (j == k) ≡ false
      → HasField k v part
      → Ensures (HasField k v) (override py row names j f part)
  unfolding override
  override-keeps row names f k j v part differs h = elim (Bool-cases (row_value row names == "")) [
    | inl e ↦ rw e (Ensures-ok part h)
    | inr e ↦ rw e (assign-keeps k j v _ part differs h)
  ]

  override-sets :
      (row : Row) (names : List String) (f : String → String) (k : String) (part : Json)
      → row_value row names ≢ ""
      → Ensures (HasField k (str (f (row_value row names)))) (override py row names k f part)
  unfolding override
  override-sets row names f k part given = elim (Bool-cases (row_value row names == "")) [
    | inl e ↦ absurd (given (==→≡ _ _ e))
    | inr e ↦ rw e (assign-sets k _ part)
  ]

  override_bool-keeps :
      (row : Row) (name : String) (default : Bool) (k j : String) (v part : Json)
      → (j == k) ≡ false
      → HasField k v part
      → Ensures (HasField k v) (override_bool py row name j default part)
  unfolding override_bool
  override_bool-keeps row name default k j v part differs h =
      elim (Bool-cases (row_value row (name ∷ []) == "")) [
        | inl e ↦ rw e (Ensures-ok part h)
        | inr e ↦ rw e (
            Ensures-bind (fields_of py part) _ λ fields e'.
              Ensures-bind
                (parse_bool py (row_value row (name ∷ [])) (truth (get_or j (bool default) fields)))
                _ λ b e''. assign-keeps k j v (bool b) part differs h)
      ]

  override_all-keeps :
      (row : Row) (side k : String) (v : Json) (keys : List (String × (String → String)))
      (part : Json)
      → any_where (λ (column : String × (String → String)). column.0 == k) keys ≡ false
      → HasField k v part
      → Ensures (HasField k v) (override_all py row side keys part)
  unfolding override_all any_where
  override_all-keeps row side k v [] part differs h = Ensures-ok part h
  override_all-keeps row side k v ((j, f) ∷ keys) part differs h =
      Ensures-bind (override py row ((side <> j) ∷ []) j f part) (override_all py row side keys)
        λ next e. override_all-keeps row side k v keys next (later (j == k) _ differs) (
          (override-keeps row ((side <> j) ∷ []) f k j v part (first (j == k) _ differs) h).result
            next e)
    where
      first : (a b : Bool) → (a || b) ≡ false → a ≡ false
      first a b h = ground arith

      later : (a b : Bool) → (a || b) ≡ false → b ≡ false
      later a b h = ground arith

  override_connection-username :
      (row : Row) (side : String) (connection : Json)
      → row_value row ((side <> "username") ∷ []) ≢ ""
      → Ensures
          (HasField "username" (str (row_value row ((side <> "username") ∷ []))))
          (override_connection py row side connection)
  unfolding override_connection any_where
  override_connection-username row side connection given =
      let user = str (row_value row ((side <> "username") ∷ [])) in
      Ensures-bind (override py row ((side <> "host") ∷ []) "host" (same_text py) connection) _
        λ c e. Ensures-bind (override_port py row (side <> "port") c) _ λ c e.
          Ensures-bind (override_all py row side (credentials py) c) _ λ c1 e1.
            Ensures-bind (override_bool py row (side <> "use_ssl") "use_ssl" true c1) _ λ c2 e2.
              override_all-keeps row side "username" user (authentication py) c2 refl (
                (override_bool-keeps row (side <> "use_ssl") true "username" "use_ssl" user c1 refl
                    ((named_by c).result c1 e1)).result
                  c2 e2)
    where
      named_by :
          (c : Json)
          → Ensures
              (HasField "username" (str (row_value row ((side <> "username") ∷ []))))
              (override_all py row side (credentials py) c)
      named_by c =
          Ensures-bind (override py row ((side <> "username") ∷ []) "username" (same_text py) c)
            (override_all py row side (("password", same_text py) ∷ []))
            λ next e.
              override_all-keeps row side "username" _ (("password", same_text py) ∷ []) next refl (
                (override-sets row ((side <> "username") ∷ []) (same_text py) "username" c
                    given).result
                  next e)

  named-keeps :
      (row : Row) (n : ℕ) (connection : Json) (k : String) (payload : Fields)
      → ("job_name" == k) ≡ false
      → Ensures (λ p. get k p ≡ get k payload) (named py row n connection payload)
  unfolding named
  named-keeps row n connection k payload differs =
      elim (Bool-cases (row_value row ("job_name" ∷ []) == "")) [
        | inr e ↦ rw e (Ensures-ok _ (kept _))
        | inl e ↦ rw e (elim (Bool-cases (has_name py payload)) [
          | inl e' ↦ rw e' (Ensures-ok payload refl)
          | inr e' ↦
              rw e' (Ensures-bind (fields_of py connection) _ λ fields e''. Ensures-ok _ (kept _))
        ])
      ]
    where
      kept : (v : Json) → get k (set_field "job_name" v payload) ≡ get k payload
      kept v = get-set_field k "job_name" v payload ∙ rw differs refl

  -- The endpoint under a key has a connection with this username.
  pub record HasUser (side user : String) (payload : Fields) : Type 0 where
    pub endpoint : Fields
    pub connection : Json
    pub is_endpoint : get side payload ≡ some (obj endpoint)
    pub is_connection : get "connection" endpoint ≡ some connection
    pub username : HasField "username" (str user) connection

  -- A payload that is made of a row with both usernames has these usernames in its two connections,
  -- whatever the request that the rows have in common says.
  pub apply_row_overrides-HasUser :
      (base payload : Fields) (row : Row) (row_number : ℕ)
      → row_value row ("source_username" ∷ []) ≢ ""
      → row_value row ("destination_username" ∷ []) ≢ ""
      → apply_row_overrides py base row row_number ≡ ok payload
      → HasUser "source" (row_value row ("source_username" ∷ [])) payload
        × HasUser "destination" (row_value row ("destination_username" ∷ [])) payload
  unfolding apply_row_overrides
  apply_row_overrides-HasUser base payload row row_number given given' = go.result payload
    where
      go :
          Ensures
            (λ p.
              HasUser "source" (row_value row ("source_username" ∷ [])) p
              × HasUser "destination" (row_value row ("destination_username" ∷ [])) p)
            (apply_row_overrides py base row row_number)
      go = Ensures-bind (parts_of py base) _ λ p e.
          Ensures-bind (override_connection py row "source_" p.source_connection) _
            λ source_connection source_made.
              Ensures-bind (override_connection py row "destination_" p.destination_connection) _
                λ destination_connection destination_made.
                  Ensures-bind
                    (override_mapping py row
                      (override_in py row ("workload" ∷ []) "workload" py.lower p.payload))
                    _
                    λ body e. Ensures-bind (override_options py row p.options) _ λ options e.
                      let source =
                        set_field "connection" source_connection
                          (override_source py row p.source) in
                      let destination =
                        set_field "connection" destination_connection
                          (override_destination py row p.destination) in
                      let with_source = set_field "source" (obj source) body in
                      let with_both = set_field "destination" (obj destination) with_source in
                      let all = set_field "options" options with_both in
                      record {
                        result = λ p' made. (
                          record {
                            endpoint = source;
                            connection = source_connection;
                            is_endpoint =
                                (named-keeps row row_number source_connection "source" all
                                    refl).result
                                  p' made
                                ∙ get-set_field "source" "options" options with_both
                                ∙ get-set_field "source" "destination" (obj destination) with_source
                                ∙ get-set_field "source" "source" (obj source) body;
                            is_connection =
                                get-set_field "connection" "connection" source_connection
                                  (override_source py row p.source);
                            username =
                                (override_connection-username row "source_" p.source_connection
                                    given).result
                                  source_connection source_made;
                          },
                          record {
                            endpoint = destination;
                            connection = destination_connection;
                            is_endpoint =
                                (named-keeps row row_number source_connection "destination" all
                                    refl).result
                                  p' made
                                ∙ get-set_field "destination" "options" options with_both
                                ∙ get-set_field "destination" "destination" (obj destination)
                                    with_source;
                            is_connection =
                                get-set_field "connection" "connection" destination_connection
                                  (override_destination py row p.destination);
                            username =
                                (override_connection-username row "destination_"
                                    p.destination_connection given').result
                                  destination_connection destination_made;
                          },
                        );
                      }
