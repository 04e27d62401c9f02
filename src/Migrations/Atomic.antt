-- ===== src/Migrations/Atomic.antt =====
-- What a run of applyMigrations leaves behind, also where it throws.
use tauri_boilerplate.Base.{
  ℕ, ◌+◌, ◌≡◌, refl, sym, ◌∙◌, ap, inl, inr, Bool, true, false, ◌==◌, nat_eq, string_eq,
  if◌then◌else◌, String, Option, none, some, List, [], ◌∷◌, ◌++◌, any, length, map, filter, arith,
  Result, ok, err, Result-cases, Bool-cases, Option-cases, ok_injective,
}
use mathlib.Core.List.{append-nil, append_assoc}
use tauri_boilerplate.Clock.Format.{Text}
use tauri_boilerplate.Migrations.Script.{split_sql_script}
use tauri_boilerplate.Migrations.Engine.{
  MigrationScript, AppliedMigration, MigrationError, failed, checksum_mismatch, removed_applied,
  is_row, find_checksum, row_of, in_order, is_removed, Store, Run, run_statements, commit,
  apply_one, apply_each, check_all, apply_migrations,
}

-- No applied row has the migration's identity.
abbrev pub is_none : Option String → Bool
is_none none = true
is_none (some c) = false

abbrev pub is_new : List AppliedMigration → MigrationScript → Bool
is_new applied m = is_none (find_checksum m applied)

-- The statements of migrations, one after the other.
abbrev pub statements_of : List MigrationScript → List Text
statements_of [] = []
statements_of (m ∷ ms) = split_sql_script m.sql ++ statements_of ms

module _ {S : Type 0} (execute : Text → S → Option S) (now : MigrationScript → ℕ) where
  run_statements-append :
      (xs ys : List Text) (s s' : S)
      → run_statements execute now xs s ≡ some s'
      → run_statements execute now (xs ++ ys) s ≡ run_statements execute now ys s'
  unfolding run_statements
  run_statements-append [] ys s s' e = ap (run_statements execute now ys) cc
  run_statements-append (q ∷ xs) ys s s' e = elim (Option-cases (execute q s)) [
    | inl bad ↦ absurd cc
    | inr (u, good) ↦
        rw (good, run_statements)
          (run_statements-append xs ys u s' (rw (good, run_statements) at e))
  ]

  -- Of the migrations `pending`, those in `done` were applied as a whole, and those in `rest` left no trace.
  pub record IsAtomic (pending : List MigrationScript) (n : ℕ) (d : Store S)
      (out : Result MigrationError ℕ × Store S) : Type 0 where
    pub done : List MigrationScript
    pub rest : List MigrationScript
    pub parts : pending ≡ done ++ rest
    pub schema : run_statements execute now (statements_of done) d.schema ≡ some out.1.schema
    pub rows : out.1.migrations ≡ d.migrations ++ map (row_of now) done
    pub finished : (k : ℕ) → out.0 ≡ ok k → (rest ≡ []) × (k ≡ n + length done)

  nothing-IsAtomic :
      (pending : List MigrationScript) (n : ℕ) (d : Store S) (e : MigrationError)
      → IsAtomic pending n d (err e, d)
  unfolding run_statements
  nothing-IsAtomic pending n d e = record {
    done = [];
    rest = pending;
    parts = refl;
    schema = refl;
    rows = sym (append-nil d.migrations);
    finished = λ k h. cc;
  }

  more-IsAtomic :
      (m : MigrationScript) (s : S) (pending : List MigrationScript) (n : ℕ) (d : Store S)
      (out : Result MigrationError ℕ × Store S)
      → run_statements execute now (split_sql_script m.sql) d.schema ≡ some s
      → IsAtomic pending
          (n + 1)
          (record { schema = s; migrations = d.migrations ++ row_of now m ∷ [] })
          out
      → IsAtomic (m ∷ pending) n d out
  more-IsAtomic m s pending n d out e p = record {
    done = m ∷ p.done;
    rest = p.rest;
    parts = ap (λ r. m ∷ r) p.parts;
    schema =
        run_statements-append (split_sql_script m.sql) (statements_of p.done) d.schema s e
        ∙ p.schema;
    rows = p.rows ∙ append_assoc d.migrations (row_of now m ∷ []) (map (row_of now) p.done);
    finished =
        λ k h. let (none_left, counted) = p.finished k h in (none_left, omega (arith, counted));
  }

  commit-IsAtomic :
      (m : MigrationScript) (o : Option S) (next : Run execute now) (pending : List MigrationScript)
      (n : ℕ) (d : Store S)
      → run_statements execute now (split_sql_script m.sql) d.schema ≡ o
      → ((k : ℕ) (u : Store S) → IsAtomic pending k u (next k u))
      → IsAtomic (m ∷ pending) n d (commit execute now m o next n d)
  unfolding commit
  commit-IsAtomic m none next pending n d e later = nothing-IsAtomic (m ∷ pending) n d failed
  commit-IsAtomic m (some s) next pending n d e later =
      elim (Bool-cases (any (is_row m) d.migrations)) [
        | inl taken ↦ rw (taken, commit) (nothing-IsAtomic (m ∷ pending) n d failed)
        | inr free ↦ rw (free, commit) (more-IsAtomic m s pending n d _ e (later _ _))
      ]

  apply_one-IsAtomic :
      (m : MigrationScript) (o : Option String) (next : Run execute now)
      (pending : List MigrationScript) (n : ℕ) (d : Store S)
      → ((k : ℕ) (u : Store S) → IsAtomic pending k u (next k u))
      → IsAtomic
          (if is_none o then m ∷ pending else pending)
          n
          d
          (apply_one execute now m o next n d)
  unfolding apply_one
  apply_one-IsAtomic m none next pending n d later =
      commit-IsAtomic m (run_statements execute now (split_sql_script m.sql) d.schema) next pending
        n d refl later
  apply_one-IsAtomic m (some c) next pending n d later = elim (Bool-cases (c == m.checksum)) [
    | inl same ↦ rw (same, apply_one) (later n d)
    | inr differs ↦ rw (differs, apply_one) (nothing-IsAtomic pending n d checksum_mismatch)
  ]

  pub apply_each-IsAtomic :
      (applied : List AppliedMigration) (ms : List MigrationScript) (n : ℕ) (d : Store S)
      → IsAtomic (filter (is_new applied) ms) n d (apply_each execute now applied ms n d)
  unfolding apply_each run_statements
  apply_each-IsAtomic applied [] n d = record {
    done = [];
    rest = [];
    parts = refl;
    schema = refl;
    rows = sym (append-nil d.migrations);
    finished = λ k h. (refl, omega (arith, ok_injective h));
  }
  apply_each-IsAtomic applied (m ∷ ms) n d =
      apply_one-IsAtomic m (find_checksum m applied) (apply_each execute now applied ms)
        (filter (is_new applied) ms) n d (apply_each-IsAtomic applied ms)

  -- Whether a run succeeds or throws, and wherever it throws: the migrations that are not yet recorded fall,
  -- in their order, into those whose statements have all been executed, in order, and whose rows stand behind the
  -- rows there were, and those that left no trace. Of the latter there are none in a run that succeeds, which
  -- returns the number of the former.
  pub apply_migrations-IsAtomic :
      (rank : String → ℕ) (ms : List MigrationScript) (d : Store S)
      → IsAtomic
          (filter (is_new d.migrations) (in_order rank ms))
          0
          d
          (apply_migrations execute now rank ms d)
  unfolding apply_migrations
  apply_migrations-IsAtomic rank ms d = elim (Result-cases (check_all ms)) [
    | inr (e, invalid) ↦ rw (invalid, apply_migrations) (nothing-IsAtomic _ 0 d e)
    | inl (u, valid) ↦ elim (Bool-cases (any (is_removed ms) d.migrations)) [
      | inl gone ↦ rw (valid, gone, apply_migrations) (nothing-IsAtomic _ 0 d removed_applied)
      | inr kept ↦
          rw (valid, kept, apply_migrations)
            (apply_each-IsAtomic d.migrations (in_order rank ms) 0 d)
    ]
  ]
