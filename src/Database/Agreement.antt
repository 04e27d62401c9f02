-- ===== src/Database/Agreement.antt =====
-- Where the two connections of packages/database agree: callbacks that only write.
use tauri_boilerplate.Base.{
  ℕ, ◌≡◌, true, refl, sym, subst, ap, none, some, List, [], ◌∷◌, ◌++◌, Result, ok, err,
  Result-cases, Throws, inl, inr,
}
use tauri_boilerplate.Database.Client.{
  Callback, finish, throw, query, execute, savepoint, Engine, queue_before, wrapped, collect,
  run_batch, send, native_transaction, run_callback, memory_transaction,
}

module _ {Value Sql Rows Thrown : Type 0} where
  -- The callback reads nothing, does not look at counts of rows, and lets what a write or a savepoint
  -- throws pass.
  abbrev pub WritesOnly : Callback Value Sql Rows Thrown → Type 0
  WritesOnly (finish v) = Unit
  WritesOnly (throw e) = Unit
  WritesOnly (query q k) = ⊥
  WritesOnly (execute q k) =
      ((n : ℕ) → k (ok (some n)) ≡ k (ok none))
      × ((e : Thrown) → k (err e) ≡ throw e)
      × WritesOnly (k (ok none))
  WritesOnly (savepoint p k) =
      WritesOnly p × ((e : Thrown) → k (err e) ≡ throw e) × ((v : Value) → WritesOnly (k (ok v)))

module _ {Value Sql Rows Thrown : Type 0} (E : Engine Value Sql Rows Thrown) where
  open E use {Database, write, read, admits, refusal}

  -- The same value and the same database, or a throw on both sides that leaves the same database.
  abbrev pub SameOutcome : (m n : Result Thrown Value × Database) → Type 0
  SameOutcome (ok v, s) (ok w, t) = (v ≡ w) × (s ≡ t)
  SameOutcome (ok v, s) (err e, t) = ⊥
  SameOutcome (err e, s) (ok v, t) = ⊥
  SameOutcome (err e, s) (err f, t) = s ≡ t

  -- What was queued against what was run on the open transaction.
  abbrev AgreesAt : Result Thrown Database → Value → Result Thrown Value × Database → Type 0
  AgreesAt (ok s') v m = m ≡ (ok v, s')
  AgreesAt (err e) v m = Throws m.0

  abbrev Agrees :
      Result Thrown (Value × List Sql) → Result Thrown Value × Database → Database → Type 0
  Agrees (err e) m s = Throws m.0
  Agrees (ok (v, ops)) m s = AgreesAt (run_batch E ops s) v m

  run_batch-append :
      (xs ys : List Sql) (s : Database)
      → run_batch E (xs ++ ys) s
        ≡ elim (run_batch E xs s) [ ok s' ↦ run_batch E ys s' | err e ↦ err e ]
  unfolding run_batch
  run_batch-append [] ys s = refl
  run_batch-append (q ∷ xs) ys s = elim (Result-cases (write q s)) [
    | inl ((n, s'), e) ↦ rw (e, run_batch) (run_batch-append xs ys s')
    | inr (e, p) ↦ rw (p, run_batch) refl
  ]

  -- Statements in front that succeed, and in front that fail.
  queue-Agrees :
      (ops : List Sql) (c : Result Thrown (Value × List Sql)) (m : Result Thrown Value × Database)
      (s s' : Database)
      → run_batch E ops s ≡ ok s'
      → Agrees c m s'
      → Agrees (queue_before ops c) m s
  queue-Agrees ops (err e) m s s' ran h = h
  queue-Agrees ops (ok (v, more)) m s s' ran h = rw (run_batch-append ops more s, ran) h

  queue-Throws :
      (ops : List Sql) (c : Result Thrown (Value × List Sql)) (m : Result Thrown Value × Database)
      (s : Database) (e : Thrown)
      → run_batch E ops s ≡ err e
      → Throws m.0
      → Agrees (queue_before ops c) m s
  queue-Throws ops (err e') m s e ran h = h
  queue-Throws ops (ok (v, more)) m s e ran h = rw (run_batch-append ops more s, ran) h

  -- A savepoint on both sides, from its nested callback's `c` and `m`.
  abbrev saved_ops :
      Thrown
      → (Result Thrown Value → Callback Value Sql Rows Thrown)
      → Result Thrown (Value × List Sql)
      → Result Thrown (Value × List Sql)
  saved_ops u k c = elim c [
    | ok (v, nested) ↦ queue_before nested (collect u (k (ok v)))
    | err e ↦ collect u (k (err e))
  ]

  abbrev saved_run :
      (Result Thrown Value → Callback Value Sql Rows Thrown)
      → Result Thrown Value × Database
      → Database
      → Result Thrown Value × Database
  saved_run k m s =
      let (r, s') = m in
      elim r [ ok v ↦ run_callback E (k (ok v)) s' | err e ↦ run_callback E (k (err e)) s ]

  module _ (u : Thrown) (k : Result Thrown Value → Callback Value Sql Rows Thrown)
      (rethrows : (e : Thrown) → k (err e) ≡ throw e)
      (later : (v : Value) (s : Database)
        → Agrees (collect u (k (ok v))) (run_callback E (k (ok v)) s) s) where
    saved_run-Throws :
        (m : Result Thrown Value × Database) (s : Database)
        → Throws m.0
        → Throws (saved_run k m s).0
    unfolding run_callback
    saved_run-Throws (ok v, s') s h = absurd h
    saved_run-Throws (err e, s') s h =
        subst (λ c. Throws (run_callback E c s).0) (sym (rethrows e)) tt

    savepoint-Agrees :
        (c : Result Thrown (Value × List Sql)) (m : Result Thrown Value × Database) (s : Database)
        → Agrees c m s
        → Agrees (saved_ops u k c) (saved_run k m s) s
    unfolding collect
    savepoint-Agrees (err e) m s h =
        subst (λ c. Agrees (collect u c) (saved_run k m s) s) (sym (rethrows e))
          (saved_run-Throws m s h)
    savepoint-Agrees (ok (v, nested)) m s h = elim (Result-cases (run_batch E nested s)) [
      | inl (s', e) ↦
          let same : m ≡ (ok v, s') = rw e at h in
          queue-Agrees nested (collect u (k (ok v))) (saved_run k m s) s s' e (
            subst (λ n. Agrees (collect u (k (ok v))) (saved_run k n s) s') (sym same) (later v s'))
      | inr (e, p) ↦
          queue-Throws nested (collect u (k (ok v))) (saved_run k m s) s e p
            (saved_run-Throws m s (rw p at h))
    ]

  collect-Agrees :
      (u : Thrown) (p : Callback Value Sql Rows Thrown)
      → WritesOnly p
      → (s : Database) → Agrees (collect u p) (run_callback E p s) s
  unfolding collect run_callback run_batch
  collect-Agrees u (finish v) w s = refl
  collect-Agrees u (throw e) w s = tt
  collect-Agrees u (query q k) w s = absurd w
  collect-Agrees u (execute q k) (counts, rethrows, rest) s = elim (Result-cases (write q s)) [
    | inl ((n, s'), e) ↦
        rw (e, run_callback, counts n)
          (queue-Agrees (q ∷ []) (collect u (k (ok none))) (run_callback E (k (ok none)) s') s s'
            (rw (e, run_batch) refl) (collect-Agrees u (k (ok none)) rest s'))
    | inr (e, p) ↦
        rw (p, run_callback, rethrows e)
          (queue-Throws (q ∷ []) (collect u (k (ok none))) (err e, s) s e (rw (p, run_batch) refl)
            tt)
  ]
  collect-Agrees u (savepoint p k) (w, rethrows, rest) s =
      savepoint-Agrees u k rethrows (λ v s'. collect-Agrees u (k (ok v)) (rest v) s') (collect u p)
        (run_callback E p s) s (collect-Agrees u p w s)

  outcome :
      (wrap : Thrown → Thrown) (c : Result Thrown (Value × List Sql))
      (m : Result Thrown Value × Database) (s : Database)
      → ((v : Value) (ops : List Sql) → c ≡ ok (v, ops) → admits ops ≡ true)
      → Agrees c m s
      → SameOutcome
          (elim c [
            | err e ↦ (err (wrap e), s)
            | ok (v, ops) ↦ let (r, s') = send E v ops s in (wrapped wrap r, s')
          ])
          (let (r, s') = m in elim r [ ok v ↦ (ok v, s') | err e ↦ (err e, s) ])
  outcome wrap (err e) (ok v, s') s fits h = absurd h
  outcome wrap (err e) (err f, s') s fits h = refl
  outcome wrap (ok (v, ops)) m s fits h = elim (Result-cases (run_batch E ops s)) [
    | inl (s', e) ↦
        let same : m ≡ (ok v, s') = rw e at h in
        rw (fits v ops refl, e, send, same)
          (refl, sym (ap (λ (n : Result Thrown Value × Database). n.1) same))
    | inr (e, p) ↦ rw (fits v ops refl, p, send) (failed e m (rw p at h))
  ]
    where
      failed :
          (e : Thrown) (n : Result Thrown Value × Database)
          → Throws n.0
          → SameOutcome
              (err (wrap e), s)
              (let (r, s') = n in elim r [ ok w ↦ (ok w, s') | err f ↦ (err f, s) ])
      failed e (ok w, s') t = absurd t
      failed e (err f, s') t = refl

  -- Take a callback that reads nothing, that goes on in the same way whatever count of rows a write returns, and
  -- that catches nothing that a write or a savepoint throws, and let the native side admit the batch that it
  -- queues: it has one outcome on both connections, the same value and database, or a throw that leaves the
  -- database as it was. The engine may refuse any statement, and savepoints may nest.
  pub native-agrees :
      (unsupported : Thrown) (wrap : Thrown → Thrown) (p : Callback Value Sql Rows Thrown)
      (s : Database)
      → WritesOnly p
      → ((v : Value) (ops : List Sql) → collect unsupported p ≡ ok (v, ops) → admits ops ≡ true)
      → SameOutcome (native_transaction E unsupported wrap p s) (memory_transaction E p s)
  unfolding native_transaction memory_transaction
  native-agrees unsupported wrap p s w fits =
      outcome wrap (collect unsupported p) (run_callback E p s) s fits
        (collect-Agrees unsupported p w s)
