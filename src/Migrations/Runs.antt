-- ===== src/Migrations/Runs.antt =====
-- Runs of the migration engine.
use tauri_boilerplate.Base.{
  ℕ, ◌≡◌, refl, String, Option, none, some, List, [], ◌∷◌, ◌++◌, filter, All, ok, err, sort_by,
  is_blank,
}
use tauri_boilerplate.Base.Int.{pos}
use tauri_boilerplate.Clock.Format.{Text}
use tauri_boilerplate.Clock.Parse.{span}
use tauri_boilerplate.Migrations.Script.{split_sql_script}
use tauri_boilerplate.Migrations.Engine.{
  MigrationScript, checksum_mismatch, find_checksum, in_order, is_defined, check_definitions,
  check_sequences, check_all, Store, run_statements, commit, apply_one, apply_each,
  apply_migrations,
}
use tauri_boilerplate.Migrations.Atomic.{IsAtomic, is_new, apply_migrations-IsAtomic}
use tauri_boilerplate.Migrations.Again.{apply_migrations-again}

-- Two migrations of the platform, the later one first.
abbrev first : MigrationScript
first = record {
  version = pos 1;
  name = "first";
  sql = b'a' ∷ b';' ∷ b'b' ∷ b';' ∷ [];
  checksum = "c1";
  owner = none;
}

abbrev second : MigrationScript
second = record {
  version = pos 2;
  name = "second";
  sql = b'c' ∷ [];
  checksum = "c2";
  owner = some "platform";
}

abbrev both : List MigrationScript
both = second ∷ first ∷ []

-- A database that keeps the statements it was given.
abbrev execute : Text → List Text → Option (List Text)
execute q log = some (log ++ q ∷ [])

abbrev now : MigrationScript → ℕ
now m = 1

abbrev rank : String → ℕ
rank o = 0

abbrev empty : Store (List Text)
empty = record { schema = []; migrations = [] }

both_applied : (apply_migrations execute now rank both empty).0 ≡ ok 2
unfolding apply_migrations check_all check_definitions check_sequences is_defined is_blank
    split_sql_script span sort_by apply_each apply_one commit run_statements
both_applied = refl

both_schema :
    (apply_migrations execute now rank both empty).1.schema
    ≡ (b'a' ∷ b';' ∷ []) ∷ (b'b' ∷ b';' ∷ []) ∷ (b'c' ∷ []) ∷ []
unfolding apply_migrations check_all check_definitions check_sequences is_defined is_blank
    split_sql_script span sort_by apply_each apply_one commit run_statements
both_schema = refl

changed :
    (apply_migrations execute now rank
      (record first { checksum = "c3" } ∷ [])
      (apply_migrations execute now rank (first ∷ []) empty).1).0
    ≡ err checksum_mismatch
unfolding apply_migrations check_all check_definitions check_sequences is_defined is_blank
    split_sql_script span sort_by apply_each apply_one commit run_statements
changed = refl

apply_migrations-IsAtomic_example :
    IsAtomic execute now
      (filter (is_new empty.migrations) (in_order rank both))
      0
      empty
      (apply_migrations execute now rank both empty)
apply_migrations-IsAtomic_example = apply_migrations-IsAtomic execute now rank both empty

apply_migrations-again_example :
    let d = (apply_migrations execute now rank both empty).1 in
    All
      (λ (m : MigrationScript). find_checksum m d.migrations ≡ some m.checksum)
      (in_order rank both)
    × (apply_migrations (λ q s. none) now rank both d ≡ (ok 0, d))
apply_migrations-again_example =
    apply_migrations-again execute now (λ q s. none) now rank both empty 2 both_applied
