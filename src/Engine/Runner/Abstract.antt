-- ===== src/Engine/Runner/Abstract.antt =====
-- What a migration job promises about an item, without the tables: the job's counters, the last item of
-- each source collection, and the set of the fingerprints that are known.
use groupware_migrator.Base.{
  ℕ, ◌+◌, String, ◌≡◌, Bool, true, false, ◌||◌, Option, none, some, List, [], ◌∷◌, if◌then◌else◌,
  ◌==◌, nat_eq, string_eq,
}

pub record Counts : Type 0 where
  pub migrated : ℕ
  pub skipped : ℕ
  pub failures : ℕ

pub record View : Type 0 where
  pub counts : Option Counts
  pub position : String → Option String
  pub known : String → Bool

-- The counters exist as long as the job does.
unfoldable pub add_counts : ℕ → ℕ → ℕ → Option Counts → Option Counts
add_counts m k f none = none
add_counts m k f (some c) =
    some (record { migrated = c.migrated + m; skipped = c.skipped + k; failures = c.failures + f })

abbrev pub count : ℕ → ℕ → ℕ → View → View
count m k f v = record v { counts = add_counts m k f v.counts }

abbrev pub move : String → String → View → View
move collection source_id v = record v {
  position = λ c. if collection == c then some source_id else v.position c;
}

abbrev pub learn : String → View → View
learn fingerprint v = record v { known = λ f. v.known f || fingerprint == f }

-- what of an item matters
pub record Entry : Type 0 where
  pub collection : String
  pub source_id : String
  pub fingerprint : String

-- An item of a known fingerprint is skipped. A dry run counts an item of a new fingerprint and does not
-- learn the fingerprint. A live run copies it and learns the fingerprint, or counts a failure, which
-- leaves the position where it is.
pub data Step (dry_run : Bool) (e : Entry) (v : View) : View → Type 0 where
  skipping :
      v.known e.fingerprint ≡ true
      → Step dry_run e v (move e.collection e.source_id (count 0 1 0 v))
  previewing :
      v.known e.fingerprint ≡ false
      → dry_run ≡ true
      → Step dry_run e v (move e.collection e.source_id (count 1 0 0 v))
  copying :
      v.known e.fingerprint ≡ false
      → dry_run ≡ false
      → Step dry_run e v (move e.collection e.source_id (count 1 0 0 (learn e.fingerprint v)))
  failing : v.known e.fingerprint ≡ false → dry_run ≡ false → Step dry_run e v (count 0 0 1 v)

-- A step for each item in turn, up to the end or to a failure.
pub data Steps (dry_run : Bool) : List Entry → View → View → Type 0 where
  finished : (v : View) → Steps dry_run [] v v
  step :
      (e : Entry) (es : List Entry) (v w u : View)
      → Step dry_run e v w
      → Steps dry_run es w u
      → Steps dry_run (e ∷ es) v u
  given_up :
      (e : Entry) (es : List Entry) (v : View)
      → v.known e.fingerprint ≡ false
      → dry_run ≡ false
      → Steps dry_run (e ∷ es) v (count 0 0 1 v)
