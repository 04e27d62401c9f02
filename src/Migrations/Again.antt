-- ===== src/Migrations/Again.antt =====
-- A second run of applyMigrations behind one that succeeded.
use tauri_boilerplate.Base.{
  ℕ, ◌+◌, ◌≡◌, refl, sym, ◌∙◌, ap, subst, inl, inr, true, false, ◌&&◌, ◌==◌, nat_eq, string_eq,
  eq_iff, String, Option, none, some, List, [], ◌∷◌, ◌++◌, any, map, any-append, All, All-prefix,
  All-filter, All-mono, All-sort_by, arith, Result, ok, err_ok, none-some, Result-cases, Bool-cases,
}
use tauri_boilerplate.Base.Int.{eq_ℤ, eq_of_parts}
use tauri_boilerplate.Clock.Format.{Text}
use tauri_boilerplate.Migrations.Atomic.{is_new, apply_each-IsAtomic}
use tauri_boilerplate.Migrations.Engine.{
  MigrationScript, AppliedMigration, MigrationError, owner_of, is_row, find_checksum, row_of,
  in_order, is_removed, Store, Run, commit, apply_one, apply_each, check_all, apply_migrations,
}

-- The migration is recorded with its checksum.
abbrev IsRecorded : List AppliedMigration → MigrationScript → Type 0
IsRecorded t m = find_checksum m t ≡ some m.checksum

is_row-of : (now : MigrationScript → ℕ) (m : MigrationScript) → is_row m (row_of now m) ≡ true
is_row-of now m = ground (arith, eq_iff (owner_of m) (owner_of m))

find-new :
    (m : MigrationScript) (t : List AppliedMigration) (r : AppliedMigration)
    → is_row m r ≡ true
    → find_checksum m (t ++ r ∷ []) ≡ some r.checksum
find-new m [] r h = rw h refl
find-new m (x ∷ t) r h = rw (find-new m t r h) refl

find-absent :
    (m : MigrationScript) (t : List AppliedMigration)
    → any (is_row m) t ≡ false
    → find_checksum m t ≡ none
find-absent m [] h = refl
find-absent m (x ∷ t) h =
    let other : is_row m x ≡ false = ground arith in simp (find-absent m t (ground arith), other)

find-other :
    (m : MigrationScript) (t : List AppliedMigration) (r : AppliedMigration)
    → is_row m r ≡ false
    → find_checksum m (t ++ r ∷ []) ≡ find_checksum m t
find-other m [] r h = rw h refl
find-other m (x ∷ t) r h = rw (find-other m t r h) refl

same_owner :
    (m : MigrationScript) (r : AppliedMigration)
    → is_row m r ≡ true
    → (r.owner ≡ owner_of m) × (r.version ≡ m.version)
same_owner m r h =
    ((eq_iff r.owner (owner_of m)).0 (ground arith), eq_of_parts r.version m.version (ground arith))

-- Migrations of one identity have the same rows.
any-row_same :
    (now : MigrationScript → ℕ) (m n : MigrationScript) (t : List AppliedMigration)
    → is_row m (row_of now n) ≡ true
    → any (is_row n) t ≡ any (is_row m) t
any-row_same now m n t h =
    let (owner, version) = same_owner m (row_of now n) h in
    ap (λ o. any (λ (r : AppliedMigration). r.owner == o && eq_ℤ r.version n.version) t) owner
    ∙ ap (λ v. any (λ (r : AppliedMigration). r.owner == owner_of m && eq_ℤ r.version v) t) version

-- A row whose identity no row has changes no other checksum.
row-keeps_found :
    (now : MigrationScript → ℕ) (m n : MigrationScript) (t : List AppliedMigration) (c : String)
    → any (is_row n) t ≡ false
    → find_checksum m t ≡ some c
    → find_checksum m (t ++ row_of now n ∷ []) ≡ some c
row-keeps_found now m n t c free found = elim (Bool-cases (is_row m (row_of now n))) [
  | inr other ↦ find-other m t (row_of now n) other ∙ found
  | inl same ↦
      absurd (none-some (sym (find-absent m t (sym (any-row_same now m n t same) ∙ free)) ∙ found))
]

-- Every checksum that the first table has, the second has too.
abbrev Keeps : List AppliedMigration → List AppliedMigration → Type 0
Keeps t u =
    (m : MigrationScript) (c : String) → find_checksum m t ≡ some c → find_checksum m u ≡ some c

row-Keeps :
    (now : MigrationScript → ℕ) (n : MigrationScript) (t : List AppliedMigration)
    → any (is_row n) t ≡ false
    → Keeps t (t ++ row_of now n ∷ [])
row-Keeps now n t free m c found = row-keeps_found now m n t c free found

-- What a loop over `ms` that succeeds leaves behind.
record Succeeds {S : Type 0} (ms : List MigrationScript) (d : Store S)
    (out : Result MigrationError ℕ × Store S) : Type 0 where
  pub recorded : All (IsRecorded out.1.migrations) ms
  pub keeps : Keeps d.migrations out.1.migrations

module _ {S : Type 0} (execute : Text → S → Option S) (now : MigrationScript → ℕ)
    (applied : List AppliedMigration) (k : ℕ) where
  Later : List MigrationScript → Run execute now → Type 0
  Later ms next =
      (n : ℕ) (u : Store S)
      → Keeps applied u.migrations
      → (next n u).0 ≡ ok k
      → Succeeds ms u (next n u)

  commit-Succeeds :
      (m : MigrationScript) (o : Option S) (ms : List MigrationScript) (next : Run execute now)
      (n : ℕ) (d : Store S)
      → Keeps applied d.migrations
      → Later ms next
      → (commit execute now m o next n d).0 ≡ ok k
      → Succeeds (m ∷ ms) d (commit execute now m o next n d)
  unfolding commit Later
  commit-Succeeds m none ms next n d keeps later h = absurd cc
  commit-Succeeds m (some s) ms next n d keeps later h =
      elim (Bool-cases (any (is_row m) d.migrations)) [
        | inl taken ↦ absurd (err_ok (rw (taken, commit) at h))
        | inr free ↦
            let p =
              later (n + 1) _ (λ i c f. row-Keeps now m d.migrations free i c (keeps i c f))
                (rw (free, commit) at h) in
            rw (free, commit)
              (record {
                recorded = (
                  p.keeps m m.checksum (find-new m d.migrations (row_of now m) (is_row-of now m)),
                  p.recorded,
                );
                keeps = λ i c f. p.keeps i c (row-Keeps now m d.migrations free i c f);
              })
      ]

  apply_one-Succeeds :
      (m : MigrationScript) (o : Option String) (ms : List MigrationScript) (next : Run execute now)
      (n : ℕ) (d : Store S)
      → find_checksum m applied ≡ o
      → Keeps applied d.migrations
      → Later ms next
      → (apply_one execute now m o next n d).0 ≡ ok k
      → Succeeds (m ∷ ms) d (apply_one execute now m o next n d)
  unfolding apply_one Later
  apply_one-Succeeds m none ms next n d e keeps later h =
      commit-Succeeds m _ ms next n d keeps later h
  apply_one-Succeeds m (some c) ms next n d e keeps later h = elim (Bool-cases (c == m.checksum)) [
    | inr differs ↦ absurd (err_ok (rw (differs, apply_one) at h))
    | inl same ↦
        let p = later n d keeps (rw (same, apply_one) at h) in
        rw (same, apply_one)
          (record {
            recorded =
                (p.keeps m c (keeps m c e) ∙ ap some ((eq_iff c m.checksum).0 same), p.recorded);
            keeps = p.keeps;
          })
  ]

  apply_each-Succeeds :
      (ms : List MigrationScript) (n : ℕ) (d : Store S)
      → Keeps applied d.migrations
      → (apply_each execute now applied ms n d).0 ≡ ok k
      → Succeeds ms d (apply_each execute now applied ms n d)
  unfolding apply_each Later
  apply_each-Succeeds [] n d keeps h = record { recorded = tt; keeps = λ m c f. f }
  apply_each-Succeeds (m ∷ ms) n d keeps h =
      apply_one-Succeeds m (find_checksum m applied) ms (apply_each execute now applied ms) n d refl
        keeps (apply_each-Succeeds ms) h

  -- Where all migrations are recorded, the loop does nothing.
  apply_each-idle :
      (ms : List MigrationScript) (n : ℕ) (d : Store S)
      → All (IsRecorded applied) ms
      → apply_each execute now applied ms n d ≡ (ok n, d)
  unfolding apply_each apply_one
  apply_each-idle [] n d h = refl
  apply_each-idle (m ∷ ms) n d (found, h) =
      rw (found, apply_each, apply_one, (eq_iff m.checksum m.checksum).1 refl)
        (apply_each-idle ms n d h)

-- The row is one of a supplied migration.
abbrev IsSupplied : (MigrationScript → ℕ) → List MigrationScript → MigrationScript → Type 0
IsSupplied now ms m = any (λ (i : MigrationScript). is_row i (row_of now m)) ms ≡ true

module _ (now : MigrationScript → ℕ) where
  supplied : (ms : List MigrationScript) → All (IsSupplied now ms) ms
  supplied [] = tt
  supplied (m ∷ ms) =
      (ground (arith, is_row-of now m), All-mono (λ n h. ground arith) ms (supplied ms))

  sorted-IsSupplied :
      (rank : String → ℕ) (ms : List MigrationScript) → All (IsSupplied now ms) (in_order rank ms)
  sorted-IsSupplied rank ms =
      All-sort_by (IsSupplied now ms) _ _ (All-sort_by (IsSupplied now ms) _ ms (supplied ms))

  not_removed :
      (ms done : List MigrationScript)
      → All (IsSupplied now ms) done
      → any (is_removed ms) (map (row_of now) done) ≡ false
  not_removed ms [] h = refl
  not_removed ms (m ∷ done) (hm, h) = ground (arith, not_removed ms done h)

apply_migrations-starts :
    {S : Type 0} (execute : Text → S → Option S) (now : MigrationScript → ℕ) (rank : String → ℕ)
    (ms : List MigrationScript) (d : Store S) (u : Unit {0})
    → check_all ms ≡ ok u
    → any (is_removed ms) d.migrations ≡ false
    → apply_migrations execute now rank ms d
      ≡ apply_each execute now d.migrations (in_order rank ms) 0 d
unfolding apply_migrations
apply_migrations-starts execute now rank ms d u valid kept = rw (valid, kept, apply_migrations) refl

-- Every migration is recorded, and another run changes nothing.
abbrev Settled :
    {S : Type 0}
    → (Text → S → Option S)
    → (MigrationScript → ℕ)
    → (String → ℕ)
    → List MigrationScript
    → Result MigrationError ℕ × Store S
    → Type 0
Settled execute now rank ms (r, d) =
    All (λ (m : MigrationScript). find_checksum m d.migrations ≡ some m.checksum) (in_order rank ms)
    × (apply_migrations execute now rank ms d ≡ (ok 0, d))

module _ {S : Type 0} (execute : Text → S → Option S) (now : MigrationScript → ℕ) where
  -- The rows behind a loop over supplied migrations are of no migration that is gone.
  apply_each-not_removed :
      (all ms : List MigrationScript) (n : ℕ) (d : Store S)
      → any (is_removed all) d.migrations ≡ false
      → All (IsSupplied now all) ms
      → any (is_removed all) (apply_each execute now d.migrations ms n d).1.migrations ≡ false
  apply_each-not_removed all ms n d kept h =
      let p = apply_each-IsAtomic execute now d.migrations ms n d in
      let mine = All-prefix (IsSupplied now all) p.done p.rest (
        subst (All (IsSupplied now all)) p.parts (
          All-filter (IsSupplied now all) (is_new d.migrations) ms
            (All-mono (λ m a new. a) ms h))) in
      rw p.rows (
        any-append (is_removed all) d.migrations (map (row_of now) p.done)
        ∙ (rw (kept, not_removed now all p.done mine) refl))

  -- Behind a run that succeeded every supplied migration is recorded with its checksum, and another run of the
  -- same migrations, on any SQL engine and at any time, succeeds, applies none, and leaves the database as
  -- it is.
  pub apply_migrations-again :
      (execute' : Text → S → Option S) (now' : MigrationScript → ℕ) (rank : String → ℕ)
      (ms : List MigrationScript) (d : Store S) (k : ℕ)
      → (apply_migrations execute now rank ms d).0 ≡ ok k
      → let d' = (apply_migrations execute now rank ms d).1 in
        All
          (λ (m : MigrationScript). find_checksum m d'.migrations ≡ some m.checksum)
          (in_order rank ms)
        × (apply_migrations execute' now' rank ms d' ≡ (ok 0, d'))
  unfolding apply_migrations
  apply_migrations-again execute' now' rank ms d k h = elim (Result-cases (check_all ms)) [
    | inr (e, invalid) ↦ absurd (err_ok (rw (invalid, apply_migrations) at h))
    | inl (u, valid) ↦ elim (Bool-cases (any (is_removed ms) d.migrations)) [
      | inl gone ↦ absurd (err_ok (rw (valid, gone, apply_migrations) at h))
      | inr kept ↦
          let started = apply_migrations-starts execute now rank ms d u valid kept in
          let out = apply_each execute now d.migrations (in_order rank ms) 0 d in
          let p =
            apply_each-Succeeds execute now d.migrations k (in_order rank ms) 0 d (λ m c f. f)
              (rw started at h) in
          let still =
            apply_each-not_removed ms (in_order rank ms) 0 d kept (sorted-IsSupplied now rank ms) in
          subst (Settled execute' now' rank ms) (sym started) (
            p.recorded,
            apply_migrations-starts execute' now' rank ms _ u valid still
                ∙ apply_each-idle execute' now' out.1.migrations 0 (in_order rank ms) 0 out.1
                    p.recorded,
          )
    ]
  ]
