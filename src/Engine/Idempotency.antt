-- ===== src/Engine/Idempotency.antt =====
-- engine/idempotency.py: the fingerprints by which a job knows what it has migrated.
use groupware_migrator.Base.{String, string_eq, Option, none, some, length, ◌==◌, if◌then◌else◌}
use groupware_migrator.Base.Text.{is_char, lstrip, rstrip, strip, decimal, ◌<>◌}
use groupware_migrator.Domain.Types.{Bytes}

-- What the standard library gives: SHA-256 in hexadecimal, the two case mappings, UTF-8, and the
-- header parser, which is `none` where it raises or finds no Message-ID. `get` on the parsed headers,
-- outside the `try` block, raises nothing: `policy.default` is documented to record the defects of a
-- header instead of raising them.
pub record Library : Type 0 where
  pub sha256 : Bytes → String
  pub encode : String → Bytes
  pub lower : String → String
  pub casefold : String → String
  pub header_message_id : Bytes → Option String

module _ (lib : Library) where
  abbrev non_empty : String → Option String
  non_empty s = if s == "" then none else some s

  unfoldable pub normalize_message_id : Option String → Option String
  unfolding lstrip rstrip strip is_char
  normalize_message_id none = none
  normalize_message_id (some id) =
      if id == ""
      then none
      else non_empty (lib.lower (strip (rstrip (is_char b'>') (lstrip (is_char b'<') (strip id)))))

  unfoldable pub extract_message_id : Bytes → Option String
  unfolding normalize_message_id
  extract_message_id raw = normalize_message_id (lib.header_message_id raw)

  abbrev or_else : Option String → Option String → Option String
  or_else none b = b
  or_else (some a) b = some a

  unfoldable pub message_key : Bytes → Option String → Option String
  unfolding extract_message_id normalize_message_id
  message_key raw message_id = or_else (normalize_message_id message_id) (extract_message_id raw)

  abbrev or_empty : Option String → String
  or_empty none = ""
  or_empty (some s) = s

  unfoldable pub build_message_fingerprint : Bytes → Option String → Option String → String
  build_message_fingerprint raw source_id message_id = elim (message_key raw message_id) [
    | some id ↦ lib.sha256 (lib.encode ("mid:" <> id <> "|size:" <> decimal (length raw)))
    | none ↦ lib.sha256 (
        lib.encode (
          "raw:"
          <> lib.sha256 raw
          <> "|source:"
          <> or_empty source_id
          <> "|size:"
          <> decimal (length raw)))
  ]

  unfoldable pub build_item_fingerprint : String → String → Bytes → Option String → String
  build_item_fingerprint source_collection source_id raw version_token = lib.sha256 (
      lib.encode (
        "item:"
        <> lib.casefold (strip source_collection)
        <> "::"
        <> strip source_id
        <> "|version:"
        <> strip (or_empty version_token)
        <> "|payload:"
        <> lib.sha256 raw
        <> "|size:"
        <> decimal (length raw)))
