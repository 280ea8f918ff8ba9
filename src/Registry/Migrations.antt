-- ===== src/Registry/Migrations.antt =====
-- src/collectmind/registry/migrations/runner.py: the files that are migrations, and their
-- application.
pub mod Progress
pub mod RolledBack
pub mod Discovered
mod Examples
use snts_collectmind.Prelude.{
  ℕ, zero, suc, Bool, true, false, not, ◌&&◌, ◌||◌, Option, none, some, List, [], ◌∷◌, ◌++◌, map,
  String, Text, codes, any, all, keep_if, leb, length, is_digit, is_lower, nat_eq, text_eq,
  if◌then◌else◌, ◌==◌,
}
use snts_collectmind.Prelude.Dict.{lookup, insert, text_key}
use snts_collectmind.Validator.Sorted.{sorted_set}

-- Paths are the names in the directory.
pub record Migration : Type 0 where
  pub version : Text
  pub name : Text
  pub up_path : Text
  pub down_path : Option Text

-- [a-z0-9_]
abbrev pub name_char : ℕ → Bool
name_char c = is_lower c || is_digit c || nat_eq c b'_'

-- A run of characters that pass a test, and what follows it.
unfoldable pub span : (ℕ → Bool) → Text → Text × Text
span p [] = ([], [])
span p (c ∷ s) = let rest = span p s in if p c then (c ∷ rest.0, rest.1) else ([], c ∷ s)

-- `$` matches at the end, and before a newline at the end.
abbrev pub is_suffix : Text → Text → Bool
is_suffix suffix s = text_eq s suffix || text_eq s (suffix ++ (10 ∷ []))

abbrev pub named : Text → Text → Text × Text → Option (Text × Text)
named suffix version (name, rest) =
    if leb 1 (length name) && is_suffix suffix rest then some (version, name) else none

abbrev pub versioned : Text → Text × Text → Option (Text × Text)
versioned suffix (version, []) = none
versioned suffix (version, c ∷ s) =
    if leb 3 (length version) && nat_eq c b'_'
    then named suffix version (span name_char s)
    else none

-- _UP_PATTERN.match and _DOWN_PATTERN.match, with the groups.
unfoldable pub match_file : Text → Text → Option (Text × Text)
unfolding span
match_file suffix file = versioned suffix (span is_digit file)

-- pairs[key], with the "up" and the "down" that are there.
pub record Files : Type 0 where
  pub up : Option Text
  pub down : Option Text

abbrev pub key_of : Text × Text → Text
key_of (version, name) = version ++ (b'_' ∷ name)

-- pairs.setdefault(key, {})
abbrev pub or_new : Option Files → Files
or_new none = record { up = none; down = none }
or_new (some files) = files

abbrev pub note_down : Text → Option (Text × Text) → List (Text × Files) → List (Text × Files)
note_down file none pairs = pairs
note_down file (some groups) pairs =
    insert (key_of groups) (record (or_new (lookup (key_of groups) pairs)) { down = some file })
      pairs

abbrev pub note_file :
    Text → Option (Text × Text) → Option (Text × Text) → List (Text × Files) → List (Text × Files)
note_file file none down pairs = note_down file down pairs
note_file file (some groups) down pairs =
    insert (key_of groups) (record (or_new (lookup (key_of groups) pairs)) { up = some file }) pairs

-- The loop over the entries.
unfoldable pub note_files : (Text → Bool) → List Text → List (Text × Files) → List (Text × Files)
unfolding match_file lookup insert
note_files is_file [] pairs = pairs
note_files is_file (file ∷ entries) pairs = note_files is_file entries (
    if is_file file
    then note_file file (match_file (codes ".up.sql") file) (match_file (codes ".down.sql") file)
        pairs
    else pairs)

-- key.split("_", 1)
unfoldable pub split_key : Text → Text × Text
split_key [] = ([], [])
split_key (c ∷ s) =
    let rest = split_key s in if nat_eq c b'_' then ([], s) else (c ∷ rest.0, rest.1)

-- if "up" not in files: continue
abbrev pub migration_of : Text → Option Files → List Migration → List Migration
migration_of key none out = out
migration_of key (some files) out = elim files.up [
  | none ↦ out
  | some up ↦
      record {
        version = (split_key key).0;
        name = (split_key key).1;
        up_path = up;
        down_path = files.down;
      }
      ∷ out
]

unfoldable pub migrations_of : List Text → List (Text × Files) → List Migration
unfolding split_key lookup
migrations_of [] pairs = []
migrations_of (key ∷ keys) pairs = migration_of key (lookup key pairs) (migrations_of keys pairs)

-- discover_migrations, on the names of a directory and the test for a file.
unfoldable pub discover_migrations : List Text → (Text → Bool) → List Migration
unfolding note_files migrations_of sorted_set
discover_migrations names is_file =
    let pairs = note_files is_file (sorted_set names) [] in
    migrations_of (sorted_set (map (λ p. p.0) pairs)) pairs

-- The database: its schema, and the rows of schema_migrations, if that table is there.
pub record MigrationDb (S : Type 0) : Type 0 where
  pub schema : S
  pub schema_migrations : Option (List (Text × Text))

-- CREATE TABLE IF NOT EXISTS
abbrev pub rows_of : Option (List (Text × Text)) → List (Text × Text)
rows_of none = []
rows_of (some rows) = rows

-- SELECT version FROM schema_migrations
abbrev pub versions : List (Text × Text) → List Text
versions rows = map (λ r. r.0) rows

abbrev pub in_versions : Text → List Text → Bool
in_versions v l = any (λ w. text_eq v w) l

-- A call that returns with the versions that it applied, or raises; with the database that it
-- leaves.
pub data Applied (S : Type 0) : Type 0 where
  done : List Text → S → List (Text × Text) → Applied S
  raised : S → List (Text × Text) → Applied S

-- migrations or discover_migrations()
abbrev pub or_discovered : Option (List Migration) → List Migration → List Migration
or_discovered none discovered = discovered
or_discovered (some []) discovered = discovered
or_discovered (some (m ∷ migrations)) discovered = m ∷ migrations

-- {m.version: m for m in ...}[version]: the last one.
unfoldable pub by_version : Text → List Migration → Option Migration
by_version version [] = none
by_version version (m ∷ migrations) = elim (by_version version migrations) [
  | some later ↦ some later
  | none ↦ if text_eq m.version version then some m else none
]

-- DELETE FROM schema_migrations WHERE version = $1
unfoldable pub delete_version : Text → List (Text × Text) → List (Text × Text)
delete_version version rows = keep_if (λ r. not (text_eq r.0 version)) rows

module _ {S : Type 0} (execute : Text → S → Option S) where
  -- INSERT INTO schema_migrations: version is the primary key.
  abbrev pub recorded : Migration → List (Text × Text) → Option S → Option (S × List (Text × Text))
  recorded m rows none = none
  recorded m rows (some schema) =
      if in_versions m.version (versions rows)
      then none
      else some (schema, rows ++ ((m.version, m.name) ∷ []))

  -- The transaction of one migration; none leaves everything as it was.
  unfoldable pub apply_one : Migration → S → List (Text × Text) → Option (S × List (Text × Text))
  apply_one m schema rows = recorded m rows (execute m.up_path schema)

  unfoldable pub apply_all :
      List Text → List Migration → List Text → S → List (Text × Text) → Applied S
  unfolding apply_one
  apply_all existing [] applied schema rows = done applied schema rows
  apply_all existing (m ∷ migrations) applied schema rows =
      let skipped = apply_all existing migrations applied schema rows in
      if in_versions m.version existing then skipped else elim (apply_one m schema rows) [
        | none ↦ raised schema rows
        | some (schema', rows') ↦
            apply_all existing migrations (applied ++ (m.version ∷ [])) schema' rows'
      ]

  unfoldable pub apply_pending :
      Option (List Migration) → List Migration → MigrationDb S → Applied S
  unfolding apply_all
  apply_pending migrations discovered db =
      let rows = rows_of db.schema_migrations in
      apply_all (versions rows) (or_discovered migrations discovered) [] db.schema rows

  abbrev pub rolled : Text → Option S → S → List (Text × Text) → Applied S
  rolled version none schema rows = raised schema rows
  rolled version (some schema') schema rows =
      done (version ∷ []) schema' (delete_version version rows)

  -- Out of the two ValueErrors, before the connection.
  abbrev pub with_down : Text → Option Text → S → List (Text × Text) → Option (Applied S)
  with_down version none schema rows = none
  with_down version (some down) schema rows = some (
      if in_versions version (versions rows)
      then rolled version (execute down schema) schema rows
      else done [] schema rows)

  abbrev pub with_target : Text → Option Migration → S → List (Text × Text) → Option (Applied S)
  with_target version none schema rows = none
  with_target version (some target) schema rows = with_down version target.down_path schema rows

  -- rollback_one; none is a ValueError, and the versions are those rolled back.
  unfoldable pub rollback_one : Text → List Migration → MigrationDb S → Option (Applied S)
  unfolding by_version delete_version
  rollback_one version discovered db =
      with_target version (by_version version discovered) db.schema (rows_of db.schema_migrations)
