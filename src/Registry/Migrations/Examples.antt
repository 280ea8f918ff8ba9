-- ===== src/Registry/Migrations/Examples.antt =====
-- Migrations at concrete files: two that apply, and one that does not.
use snts_collectmind.Prelude.{
  Option, none, some, List, [], ◌∷◌, Text, codes, text_eq, if◌then◌else◌, ◌≡◌, refl, true, ℕ,
}
use snts_collectmind.Prelude.Dict.{lookup, insert}
use snts_collectmind.Validator.Sorted.{sorted_set, add_sorted, text_lt}
use snts_collectmind.Registry.Migrations.{
  Migration, MigrationDb, rows_of, versions, done, raised, apply_pending, apply_all, apply_one,
  rollback_one, by_version, discover_migrations, note_files, match_file, span, migrations_of,
  split_key, or_discovered,
}
use snts_collectmind.Registry.Migrations.Progress.{StoppedAt, failure_stops}
use snts_collectmind.Registry.Migrations.RolledBack.{CanGoBack, rollback-apply}

abbrev m1 : Migration
m1 = record {
  version = codes "012";
  name = codes "rls_a";
  up_path = codes "012_rls_a.up.sql";
  down_path = some (codes "012_rls_a.down.sql");
}

abbrev m2 : Migration
m2 = record {
  version = codes "013";
  name = codes "b";
  up_path = codes "013_b.up.sql";
  down_path = none;
}

-- The schema is the number of migrations in it; the second file does not apply.
abbrev run_sql : Text → ℕ → Option ℕ
run_sql path n =
    if text_eq path m2.up_path
    then none
    else if text_eq path (codes "012_rls_a.down.sql")
    then some 0
    else some 1

abbrev new_db : MigrationDb ℕ
new_db = record { schema = 0; schema_migrations = none }

discovered :
    discover_migrations
      (codes "013_b.up.sql"
        ∷ codes "012_rls_a.down.sql"
        ∷ codes "001_init.sql"
        ∷ codes "012_rls_a.up.sql"
        ∷ [])
      (λ f. true)
    ≡ (m1 ∷ m2 ∷ [])
unfolding discover_migrations note_files match_file span migrations_of split_key sorted_set
    add_sorted text_lt lookup insert text_eq
discovered = refl

stopped :
    apply_pending run_sql (some (m1 ∷ m2 ∷ [])) [] new_db
    ≡ raised 1 ((codes "012", codes "rls_a") ∷ [])
unfolding apply_pending apply_all apply_one text_eq
stopped = refl

failure_stops_example :
    StoppedAt run_sql
      (versions (rows_of none))
      (or_discovered (some (m1 ∷ m2 ∷ [])) [])
      []
      0
      (rows_of none)
      1
      ((codes "012", codes "rls_a") ∷ [])
failure_stops_example =
    failure_stops run_sql (some (m1 ∷ m2 ∷ [])) [] new_db 1 ((codes "012", codes "rls_a") ∷ [])
      stopped

applied :
    apply_pending run_sql (some (m1 ∷ [])) [] new_db
    ≡ done (codes "012" ∷ []) 1 ((codes "012", codes "rls_a") ∷ [])
unfolding apply_pending apply_all apply_one text_eq
applied = refl

can_go_back : CanGoBack run_sql (codes "012") (m1 ∷ []) new_db m1 (codes "012_rls_a.down.sql") 1
unfolding by_version text_eq
can_go_back = record { target = refl; inverse = refl; fresh = refl; up = refl; back = refl }

rollback-apply_example :
    (rows : List (Text × Text)) × (apply_pending run_sql (some (m1 ∷ [])) (m1 ∷ []) new_db
      ≡ done (codes "012" ∷ []) 1 rows)
    × (rollback_one run_sql
          (codes "012")
          (m1 ∷ [])
          (record { schema = 1; schema_migrations = some rows })
        ≡ some (done (codes "012" ∷ []) 0 (rows_of none)))
rollback-apply_example =
    rollback-apply run_sql (codes "012") (m1 ∷ []) new_db m1 (codes "012_rls_a.down.sql") 1
      can_go_back
