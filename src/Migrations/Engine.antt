-- ===== src/Migrations/Engine.antt =====
-- MigrationEngine.applyMigrations of packages/database/src/migrations/MigrationEngine.ts. The database is
-- the table core_migrations and the rest of it, which the SQL engine's `execute` changes or refuses to; the
-- engine is an argument. An identity is the pair of owner and version that its text spells, and the
-- statements of a migration, which the code keeps by identity, are split where they are run. `rank` is an
-- owner's place in the order of localeCompare.
use tauri_boilerplate.Base.{
  ℕ, ◌+◌, Bool, true, false, not, ◌&&◌, ◌==◌, nat_eq, string_eq, if◌then◌else◌, String, Option,
  none, some, List, [], ◌∷◌, ◌++◌, any, all, Result, ok, err, ◌>>=◌, ◌>>◌, throw_if, sort_by, Dict,
  get, put, is_blank, is_space,
}
use tauri_boilerplate.Base.Int.{ℤ, pos_part, eq_ℤ}
use tauri_boilerplate.Clock.Format.{Text}
use tauri_boilerplate.Tasks.Table.{is_positive_safe}
use tauri_boilerplate.Migrations.Script.{split_sql_script}

pub record MigrationScript : Type 0 where
  pub version : ℤ
  pub name : String
  pub sql : Text
  pub checksum : String
  pub owner : Option String

-- A row of core_migrations.
pub record AppliedMigration : Type 0 where
  pub owner : String
  pub version : ℤ
  pub name : String
  pub applied_at : ℕ
  pub checksum : String

pub data MigrationError : Type 0 where
  invalid_definition duplicate empty_sql missing_migration : MigrationError
  removed_applied checksum_mismatch failed : MigrationError

-- `migration.owner ?? "platform"`
abbrev pub owner_or : Option String → String
owner_or none = "platform"
owner_or (some o) = o

abbrev pub owner_of : MigrationScript → String
owner_of m = owner_or m.owner

abbrev pub same_identity : MigrationScript → MigrationScript → Bool
same_identity m n = owner_of n == owner_of m && eq_ℤ n.version m.version

-- The row has the identity of the migration.
abbrev pub is_row : MigrationScript → AppliedMigration → Bool
is_row m r = r.owner == owner_of m && eq_ℤ r.version m.version

unfoldable pub is_defined : MigrationScript → Bool
unfolding is_blank
is_defined m =
    is_positive_safe m.version
    && not (is_blank (owner_of m))
    && not (is_blank m.name)
    && not (is_blank m.checksum)
    && not (all is_space m.sql)

abbrev pub is_empty : List Text → Bool
is_empty [] = true
is_empty (x ∷ xs) = false

abbrev pub or_none : Option (List ℕ) → List ℕ
or_none none = []
or_none (some vs) = vs

-- The loop over the definitions: the versions by owner.
unfoldable pub check_definitions :
    List MigrationScript
    → (seen : List MigrationScript) → Dict (List ℕ)
    → Result MigrationError (Dict (List ℕ))
unfolding is_defined split_sql_script
check_definitions [] seen versions = ok versions
check_definitions (m ∷ ms) seen versions = do
  throw_if (not (is_defined m)) invalid_definition
  throw_if (any (same_identity m) seen) duplicate
  throw_if (is_empty (split_sql_script m.sql)) empty_sql
  check_definitions ms (m ∷ seen)
      (put (owner_of m) (or_none (get (owner_of m) versions) ++ pos_part m.version ∷ []) versions)

abbrev pub check_sequence : (expected : ℕ) → List ℕ → Result MigrationError (Unit {0})
check_sequence expected [] = ok tt
check_sequence expected (v ∷ vs) =
    throw_if (not (v == expected)) missing_migration >> check_sequence (expected + 1) vs

unfoldable pub check_sequences : Dict (List ℕ) → Result MigrationError (Unit {0})
unfolding sort_by
check_sequences [] = ok tt
check_sequences ((o, vs) ∷ rest) = check_sequence 1 (sort_by (λ v. v) vs) >> check_sequences rest

-- The checks before the database is read.
unfoldable pub check_all : List MigrationScript → Result MigrationError (Unit {0})
unfolding check_definitions check_sequences
check_all ms = check_definitions ms [] [] >>= check_sequences

-- `appliedByIdentity.get(identity)`: of two rows the later one counts.
abbrev or_else : Option String → Option String → Option String
or_else none c = c
or_else (some c) d = some c

abbrev pub find_checksum : MigrationScript → List AppliedMigration → Option String
find_checksum m [] = none
find_checksum m (r ∷ t) = or_else (find_checksum m t) (if is_row m r then some r.checksum else none)

-- An applied row of a supplied owner that no supplied migration is.
abbrev pub is_removed : List MigrationScript → AppliedMigration → Bool
is_removed ms r =
    any (λ (m : MigrationScript). owner_of m == r.owner) ms
    && not (any (λ (m : MigrationScript). is_row m r) ms)

abbrev pub row_of : (MigrationScript → ℕ) → MigrationScript → AppliedMigration
row_of now m = record {
  owner = owner_of m;
  version = m.version;
  name = m.name;
  applied_at = now m;
  checksum = m.checksum;
}

-- The order in which the migrations are applied.
abbrev pub in_order : (rank : String → ℕ) → List MigrationScript → List MigrationScript
in_order rank ms =
    sort_by (λ (m : MigrationScript). rank (owner_of m))
      (sort_by (λ (m : MigrationScript). pos_part m.version) ms)

-- The database: what the statements change, and core_migrations.
pub record Store (S : Type 0) : Type 0 where
  pub schema : S
  pub migrations : List AppliedMigration

module _ {S : Type 0} (execute : Text → S → Option S) (now : MigrationScript → ℕ) where
  abbrev pub Run : Type 0
  Run = ℕ → Store S → Result MigrationError ℕ × Store S

  unfoldable pub run_statements : List Text → S → Option S
  run_statements [] s = some s
  run_statements (q ∷ qs) s = elim (execute q s) [ some s' ↦ run_statements qs s' | none ↦ none ]

  -- The row behind the statements of the transaction, which the primary key may refuse, and the rest of
  -- the loop. What throws in the transaction leaves the database as it was.
  unfoldable pub commit : MigrationScript → Option S → Run → Run
  commit m none next n d = (err failed, d)
  commit m (some s) next n d = elim (any (is_row m) d.migrations) [
    | true ↦ (err failed, d)
    | false ↦ next (n + 1) (record { schema = s; migrations = d.migrations ++ row_of now m ∷ [] })
  ]

  -- A migration by its applied checksum, and the rest of the loop.
  unfoldable pub apply_one : MigrationScript → Option String → Run → Run
  unfolding commit run_statements split_sql_script
  apply_one m (some c) next n d = elim (c == m.checksum) [
    | true ↦ next n d
    | false ↦ (err checksum_mismatch, d)
  ]
  apply_one m none next n d = commit m (run_statements (split_sql_script m.sql) d.schema) next n d

  -- The loop over the sorted migrations.
  unfoldable pub apply_each : (applied : List AppliedMigration) → List MigrationScript → Run
  unfolding apply_one
  apply_each applied [] n d = (ok n, d)
  apply_each applied (m ∷ ms) n d =
      apply_one m (find_checksum m applied) (apply_each applied ms) n d

  -- applyMigrations(migrations): the count of those applied, and the database
  unfoldable pub apply_migrations :
      (rank : String → ℕ) → List MigrationScript → Store S → Result MigrationError ℕ × Store S
  unfolding check_all apply_each
  apply_migrations rank ms d = elim (check_all ms) [
    | err e ↦ (err e, d)
    | ok valid ↦ elim (any (is_removed ms) d.migrations) [
      | true ↦ (err removed_applied, d)
      | false ↦ apply_each d.migrations (in_order rank ms) 0 d
    ]
  ]
