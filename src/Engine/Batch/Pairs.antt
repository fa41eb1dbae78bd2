-- ===== src/Engine/Batch/Pairs.antt =====
-- engine/batch.py: the names that a cell of the table lists.
use groupware_migrator.Base.{
  String, ◌≡◌, refl, sym, ap, ◌∙◌, ◌≢◌, inl, inr, Bool, true, false, ◌||◌, Option, none, some, List,
  [], ◌∷◌, arith, Bool-cases, ◌==◌, nat_eq, string_eq, All, ok, null, bool, num, str, arr, obj,
  Fields, end, field,
}
use groupware_migrator.Base.Text.{strip, replace_char}
use groupware_migrator.Base.Split.{split_on, contains, cut_at}
use groupware_migrator.Base.Ensures.{Ensures, Ensures-ok, Ensures-bind}
use groupware_migrator.Base.Strip.{strip_idem}
use groupware_migrator.Engine.Batch.Texts.{
  contains_arrow, cut_arrow, stripped_items, parse_mailbox_list, sides, set_field, add_pair,
  mapping_from, parse_folder_mapping,
}

-- A name that is neither empty nor surrounded by white space.
pub IsName : String → Type 0
IsName s = (strip s ≡ s) × (s ≢ "")

pub IsNames : Fields → Type 0
IsNames end = Unit {0}
IsNames (field source (str target) fields) = IsName source × IsName target × IsNames fields
IsNames (field source _ fields) = ⊥

stripped-IsName : (s : String) → (strip s == "") ≡ false → IsName (strip s)
unfolding IsName
stripped-IsName s e = (strip_idem s, λ h. true_false (sym (rw h refl) ∙ e))
  where
    true_false : true ≢ false
    true_false h = cc

stripped_items-IsName : (ss : List String) → All IsName (stripped_items ss)
unfolding stripped_items
stripped_items-IsName [] = tt
stripped_items-IsName (s ∷ ss) = elim (Bool-cases (strip s == "")) [
  | inl e ↦ rw e (stripped_items-IsName ss)
  | inr e ↦ rw e (stripped-IsName s e, stripped_items-IsName ss)
]

parse_mailbox_list-IsName : (raw : String) → All IsName (parse_mailbox_list raw)
unfolding parse_mailbox_list
parse_mailbox_list-IsName raw = elim (Bool-cases (strip raw == "")) [
  | inl e ↦ rw e tt
  | inr e ↦
      rw e
        (stripped_items-IsName (split_on b',' (replace_char b';' "," (replace_char b'|' "," raw))))
]

set_field-IsNames :
    (source target : String) (fs : Fields)
    → IsName source
    → IsName target
    → IsNames fs
    → IsNames (set_field source (str target) fs)
unfolding set_field IsNames
set_field-IsNames source target end hs ht h = (hs, ht, tt)
set_field-IsNames source target (field k (str v) fs) hs ht h = elim (Bool-cases (k == source)) [
  | inl e ↦ rw e (h.0, ht, h.2)
  | inr e ↦ rw e (h.0, h.1, set_field-IsNames source target fs hs ht h.2)
]
set_field-IsNames source target (field k null fs) hs ht h = absurd h
set_field-IsNames source target (field k (bool b) fs) hs ht h = absurd h
set_field-IsNames source target (field k (num i) fs) hs ht h = absurd h
set_field-IsNames source target (field k (arr i) fs) hs ht h = absurd h
set_field-IsNames source target (field k (obj i) fs) hs ht h = absurd h

-- The two sides of a pair are stripped.
sides-stripped :
    (pair source target : String)
    → sides pair ≡ some (source, target)
    → (strip source ≡ source) × (strip target ≡ target)
unfolding sides
sides-stripped pair source target h = elim (Bool-cases (contains_arrow pair)) [
  | inl e ↦ split_sides (cut_arrow pair).0 (cut_arrow pair).1 (sym (rw e refl) ∙ h)
  | inr e ↦ elim (Bool-cases (contains b'=' pair)) [
    | inl e' ↦ split_sides (cut_at b'=' pair).0 (cut_at b'=' pair).1 (sym (rw e (rw e' refl)) ∙ h)
    | inr e' ↦ absurd (none_some (sym (rw e (rw e' refl)) ∙ h))
  ]
]
  where
    none_some : {x : String × String} → none ≢ some x
    none_some h = cc

    two : String → String → Option (String × String)
    two a b = some (a, b)

    left : Option (String × String) → String
    left none = ""
    left (some pair) = pair.0

    right : Option (String × String) → String
    right none = ""
    right (some pair) = pair.1

    split_sides :
        (a b : String)
        → two (strip a) (strip b) ≡ two source target
        → (strip source ≡ source) × (strip target ≡ target)
    split_sides a b h = (
      ap (λ o. strip (left o)) (sym h) ∙ strip_idem a ∙ ap left h,
      ap (λ o. strip (right o)) (sym h) ∙ strip_idem b ∙ ap right h,
    )

add_pair-IsNames :
    (pair : String) (parts : Option (String × String)) (fs : Fields)
    → sides pair ≡ parts
    → IsNames fs
    → Ensures IsNames (add_pair pair parts fs)
unfolding add_pair IsName
add_pair-IsNames pair none fs e h = record { result = λ m made. absurd (cc made) }
add_pair-IsNames pair (some (source, target)) fs e h =
    elim (Bool-cases (source == "" || target == "")) [
      | inl blank ↦ rw blank record { result = λ m made. absurd (cc made) }
      | inr given ↦
          let (left, right) = sides-stripped pair source target e in
          rw given (
            Ensures-ok _ (
              set_field-IsNames source target fs (left, not_blank source (first _ _ given))
                (right, not_blank target (second _ _ given)) h))
    ]
  where
    first : (a b : Bool) → (a || b) ≡ false → a ≡ false
    first a b h = ground arith

    second : (a b : Bool) → (a || b) ≡ false → b ≡ false
    second a b h = ground arith

    true_false : true ≢ false
    true_false h = cc

    not_blank : (s : String) → (s == "") ≡ false → s ≢ ""
    not_blank s e h = true_false (sym (rw h refl) ∙ e)

mapping_from-IsNames :
    (chunks : List String) (fs : Fields) → IsNames fs → Ensures IsNames (mapping_from chunks fs)
unfolding mapping_from
mapping_from-IsNames [] fs h = Ensures-ok fs h
mapping_from-IsNames (chunk ∷ chunks) fs h = elim (Bool-cases (strip chunk == "")) [
  | inl e ↦ rw e (mapping_from-IsNames chunks fs h)
  | inr e ↦ rw e (
      Ensures-bind (add_pair (strip chunk) (sides (strip chunk)) fs) (mapping_from chunks) λ m e'.
        mapping_from-IsNames chunks m
          ((add_pair-IsNames (strip chunk) (sides (strip chunk)) fs refl h).result m e'))
]

-- Each pair of a folder mapping that is read has two names, of which none is empty or surrounded by white
-- space.
pub parse_folder_mapping-IsNames :
    (raw : String) (mapping : Fields) → parse_folder_mapping raw ≡ ok mapping → IsNames mapping
unfolding parse_folder_mapping IsNames
parse_folder_mapping-IsNames raw mapping h = go.result mapping h
  where
    none_listed : IsNames end
    none_listed = tt

    go : Ensures IsNames (parse_folder_mapping raw)
    go = elim (Bool-cases (strip raw == "")) [
      | inl e ↦ rw e (Ensures-ok end none_listed)
      | inr e ↦
          rw e (mapping_from-IsNames (split_on b';' (replace_char b'|' ";" raw)) end none_listed)
    ]
