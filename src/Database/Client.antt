-- ===== src/Database/Client.antt =====
-- The transactions of NativeDatabaseConnection and MemoryDatabaseConnection of
-- packages/database/src/connection. What a callback does with its client is a tree: each call hands its
-- outcome, a value or what it threw, to the rest of the callback.
use tauri_boilerplate.Base.{
  ℕ, Bool, not, if◌then◌else◌, Option, none, some, List, [], ◌∷◌, ◌++◌, Result, ok, err,
}

-- The values of the callback, its SQL texts with their arguments, rows and exceptions.
module _ (Value Sql Rows Thrown : Type 0) where
  -- A callback of `db.transaction`, by its calls of TransactionClient.
  pub data Callback : Type 0 where
    finish : Value → Callback
    throw : Thrown → Callback
    query : Sql → (Result Thrown Rows → Callback) → Callback
    execute : Sql → (Result Thrown (Option ℕ) → Callback) → Callback
    savepoint : Callback → (Result Thrown Value → Callback) → Callback

  -- The SQL engine: what a write does to the database, with the count of rows, and what a read returns. The
  -- native side refuses a batch that it does not admit (too many operations, too many bytes, a text that is
  -- no safe SQL) before it runs a statement.
  pub record Engine : Type 1 where
    pub Database : Type 0
    pub write : Sql → Database → Result Thrown (ℕ × Database)
    pub read : Sql → Database → Result Thrown Rows
    pub admits : List Sql → Bool
    pub refusal : Thrown

-- The statements that an earlier part of a callback queued come first.
abbrev pub queue_before :
    {Value Sql Thrown : Type 0}
    → List Sql
    → Result Thrown (Value × List Sql)
    → Result Thrown (Value × List Sql)
queue_before ops (ok (v, more)) = ok (v, ops ++ more)
queue_before ops (err e) = err e

-- `wrap` is the DatabaseError around another error.
abbrev pub wrapped :
    {Value Thrown : Type 0} → (Thrown → Thrown) → Result Thrown Value → Result Thrown Value
wrapped wrap (ok v) = ok v
wrapped wrap (err e) = err (wrap e)

module _ {Value Sql Rows Thrown : Type 0} where
  -- The client of NativeDatabaseConnection: `execute` queues its statement, `query` throws, and the
  -- statements of a savepoint are queued where its callback returns.
  unfoldable pub collect :
      Thrown → Callback Value Sql Rows Thrown → Result Thrown (Value × List Sql)
  collect unsupported (finish v) = ok (v, [])
  collect unsupported (throw e) = err e
  collect unsupported (query q k) = collect unsupported (k (err unsupported))
  collect unsupported (execute q k) = queue_before (q ∷ []) (collect unsupported (k (ok none)))
  collect unsupported (savepoint p k) = elim (collect unsupported p) [
    | ok (v, nested) ↦ queue_before nested (collect unsupported (k (ok v)))
    | err e ↦ collect unsupported (k (err e))
  ]

module _ {Value Sql Rows Thrown : Type 0} (E : Engine Value Sql Rows Thrown) where
  open E use {Database, write, read, admits, refusal}

  -- The statements of a batch one after the other, up to the first that fails.
  unfoldable pub run_batch : List Sql → Database → Result Thrown Database
  run_batch [] s = ok s
  run_batch (q ∷ ops) s = elim (write q s) [ ok (n, s') ↦ run_batch ops s' | err e ↦ err e ]

  -- `db_transaction`: the batch as a whole or nothing of it, and nothing of one that is not admitted
  abbrev pub send : Value → List Sql → Database → Result Thrown Value × Database
  send v ops s =
      if not (admits ops)
      then (err refusal, s)
      else elim (run_batch ops s) [ ok s' ↦ (ok v, s') | err e ↦ (err e, s) ]

  -- NativeDatabaseConnection.transaction
  unfoldable pub native_transaction :
      Thrown
      → (Thrown → Thrown)
      → Callback Value Sql Rows Thrown
      → Database
      → Result Thrown Value × Database
  unfolding collect run_batch
  native_transaction unsupported wrap p s = elim (collect unsupported p) [
    | err e ↦ (err (wrap e), s)
    | ok (v, ops) ↦ let (r, s') = send v ops s in (wrapped wrap r, s')
  ]

  -- The client of MemoryDatabaseConnection, which works on the open transaction. A savepoint that throws
  -- is rolled back.
  unfoldable pub run_callback :
      Callback Value Sql Rows Thrown → Database → Result Thrown Value × Database
  run_callback (finish v) s = (ok v, s)
  run_callback (throw e) s = (err e, s)
  run_callback (query q k) s = run_callback (k (read q s)) s
  run_callback (execute q k) s = elim (write q s) [
    | ok (n, s') ↦ run_callback (k (ok (some n))) s'
    | err e ↦ run_callback (k (err e)) s
  ]
  run_callback (savepoint p k) s =
      let (r, s') = run_callback p s in
      elim r [ ok v ↦ run_callback (k (ok v)) s' | err e ↦ run_callback (k (err e)) s ]

  -- MemoryDatabaseConnection.transaction
  unfoldable pub memory_transaction :
      Callback Value Sql Rows Thrown → Database → Result Thrown Value × Database
  unfolding run_callback
  memory_transaction p s =
      let (r, s') = run_callback p s in elim r [ ok v ↦ (ok v, s') | err e ↦ (err e, s) ]
