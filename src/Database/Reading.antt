-- ===== src/Database/Reading.antt =====
-- A callback that reads, on NativeDatabaseConnection of packages/database.
use tauri_boilerplate.Base.{
  ℕ, ◌≡◌, refl, sym, subst, Option, none, List, [], ◌∷◌, Result, ok, err, Result-cases, Throws, inl,
  inr,
}
use tauri_boilerplate.Database.Client.{
  Callback, throw, query, execute, savepoint, Engine, queue_before, collect, native_transaction,
}

queue-Throws :
    {Value Sql Thrown : Type 0} (ops : List Sql) (c : Result Thrown (Value × List Sql))
    → Throws c
    → Throws (queue_before ops c)
queue-Throws ops (ok c) h = absurd h
queue-Throws ops (err e) h = h

module _ {Value Sql Rows Thrown : Type 0} where
  -- Before it finishes the callback meets a read, perhaps inside a savepoint, and lets pass what the
  -- read throws. On the way its writes have no count yet and no savepoint has failed.
  pub data Reads : Callback Value Sql Rows Thrown → Type 0 where
    reads :
        {q : Sql} {k : Result Thrown Rows → Callback Value Sql Rows Thrown}
        → ((e : Thrown) → k (err e) ≡ throw e)
        → Reads (query q k)
    behind_write :
        {q : Sql} {k : Result Thrown (Option ℕ) → Callback Value Sql Rows Thrown}
        → Reads (k (ok none))
        → Reads (execute q k)
    in_savepoint :
        {p : Callback Value Sql Rows Thrown}
        {k : Result Thrown Value → Callback Value Sql Rows Thrown}
        → Reads p
        → ((e : Thrown) → k (err e) ≡ throw e)
        → Reads (savepoint p k)
    behind_savepoint :
        {p : Callback Value Sql Rows Thrown}
        {k : Result Thrown Value → Callback Value Sql Rows Thrown}
        → ((v : Value) → Reads (k (ok v)))
        → ((e : Thrown) → k (err e) ≡ throw e)
        → Reads (savepoint p k)

  Reads-Throws : (u : Thrown) {p : Callback Value Sql Rows Thrown} → Reads p → Throws (collect u p)
  unfolding collect
  Reads-Throws u (reads passes) = subst (λ c. Throws (collect u c)) (sym (passes u)) tt
  Reads-Throws u (behind_write {q} {k} r) =
      queue-Throws (q ∷ []) (collect u (k (ok none))) (Reads-Throws u r)
  Reads-Throws u (in_savepoint {p} {k} r passes) = elim (Result-cases (collect u p)) [
    | inl (c, e) ↦ absurd (subst Throws e (Reads-Throws u r))
    | inr (e, failed) ↦ rw failed (subst (λ c. Throws (collect u c)) (sym (passes e)) tt)
  ]
  Reads-Throws u (behind_savepoint {p} {k} r passes) = elim (Result-cases (collect u p)) [
    | inl ((v, nested), e) ↦ rw e (queue-Throws nested _ (Reads-Throws u (r v)))
    | inr (e, failed) ↦ rw failed (subst (λ c. Throws (collect u c)) (sym (passes e)) tt)
  ]

module _ {Value Sql Rows Thrown : Type 0} (E : Engine Value Sql Rows Thrown) where
  open E use {Database, write, read}

  -- On the native connection a transaction whose callback meets a read throws and leaves the database as it
  -- was, whatever the database holds and whatever the callback wrote before.
  pub native-throws_on_read :
      (unsupported : Thrown) (wrap : Thrown → Thrown) (p : Callback Value Sql Rows Thrown)
      (s : Database)
      → Reads p
      → (e : Thrown) × (native_transaction E unsupported wrap p s ≡ (err e, s))
  unfolding native_transaction
  native-throws_on_read unsupported wrap p s r = elim (Result-cases (collect unsupported p)) [
    | inl (c, e) ↦ absurd (subst Throws e (Reads-Throws unsupported r))
    | inr (e, failed) ↦ (wrap e, rw (failed, native_transaction) refl)
  ]
