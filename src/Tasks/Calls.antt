-- ===== src/Tasks/Calls.antt =====
-- Any calls of TaskQueueService on one table, in any order, by any number of workers.
use tauri_boilerplate.Base.{
  truthy, ℕ, ◌≡◌, refl, ◌⊎◌, inl, inr, false, List, [], ◌∷◌, ◌++◌, arith, String, Option, none,
  some, Result, if_ind, subst, sym, Result-cases, not, any, ◌==◌, string_eq, update_where,
}
use tauri_boilerplate.Base.Int.{ℤ, pos_part}
use tauri_boilerplate.Tasks.Floats.{Floats}
use tauri_boilerplate.Tasks.Types.{Thrown, TaskRow, TaskRecord}
use tauri_boilerplate.Tasks.Table.{
  QueueError, Table, is_positive_safe, same_key, insert_row, find_row,
}
use tauri_boilerplate.Tasks.Enqueue.{
  TaskDefinition, check_definition, new_row, find_twin, store, dedupe, enqueue,
}
use tauri_boilerplate.Tasks.Claim.{chosen, is_claimed, claim_row, claimed_rows, claim_next_batch}
use tauri_boilerplate.Tasks.Finish.{mark_completed, mark_failed, cancel, recover_hanging_tasks}
use tauri_boilerplate.Tasks.Life.{
  Change, enqueues, claims, reads, recovers, completes, fails, cancels,
}
use tauri_boilerplate.Tasks.Lifecycle.{
  Extends, Extends-stay, Extends-trans, Extends-append, Extends-claim, Extends-read_rows,
  Extends-mark_completed, Extends-fail_row, Extends-cancel, Extends-recover,
}

-- A call, with the times, the random number and the earlier table that it reads.
pub data Call (F : Floats) (Payload : Type 0) : Type 0 where
  enqueue_task :
      TaskDefinition F Payload → (id : String) → (now : ℕ) → (seen : Table F) → Call F Payload
  claim : ℤ → Option (List String) → (now : ℕ) → (later : String → ℕ) → Call F Payload
  complete : String → (now : ℕ) → Call F Payload
  fail : F.Num → String → Thrown → (now base : ℕ) → (seen : Table F) → Call F Payload
  cancel_task : String → (reason : String) → (now : ℕ) → Call F Payload
  recover : (timeout_ms now : ℕ) → Call F Payload

module _ {F : Floats} {Payload : Type 0} (stringify : Payload → Option String)
    (parse_json : String → Option Payload) where
  -- The table after a call.
  unfoldable pub perform : Call F Payload → Table F → Table F
  perform (enqueue_task d i now seen) t = (enqueue F stringify parse_json d i now seen t).1
  perform (claim limit types now later) t = (claim_next_batch parse_json limit types now later t).1
  perform (complete i now) t = mark_completed i now t
  perform (fail random i x now base seen) t = (mark_failed random i x now base seen t).1
  perform (cancel_task i reason now) t = cancel i reason now t
  perform (recover timeout_ms now) t = (recover_hanging_tasks timeout_ms now t).1

  unfoldable pub perform_all : List (Call F Payload) → Table F → Table F
  perform_all [] t = t
  perform_all (c ∷ cs) t = perform_all cs (perform c t)

  -- The INSERT leaves the table alone or adds the new row at its end, if both indexes allow it.
  pub insert_row_cases :
      (r : TaskRow F) (t : Table F)
      → (insert_row F r t ≡ none)
        ⊎ ((insert_row F r t ≡ some (t ++ r ∷ []))
            × (any (λ s. s.id == r.id) t ≡ false)
            × (same_key F r.unique_key t ≡ false))
  unfolding insert_row
  insert_row_cases r t = ground arith

  -- What `enqueue` does to the table: nothing, or one new row at the end.
  pub enqueue_cases :
      (d : TaskDefinition F Payload) (i : String) (now : ℕ) (seen t : Table F)
      → ((enqueue F stringify parse_json d i now seen t).1 ≡ t)
        ⊎ ((json : String) × ((enqueue F stringify parse_json d i now seen t).1
              ≡ t ++ new_row F stringify parse_json d i now json ∷ [])
            × (any (λ s. s.id == i) t ≡ false)
            × (same_key F d.unique_key t ≡ false))
  unfolding enqueue dedupe store new_row
  enqueue_cases d i now seen t = elim (Result-cases (check_definition F stringify parse_json d)) [
    | inr (e, p) ↦ rw (p, enqueue) (inl refl)
    | inl (json, p) ↦
        rw (p, enqueue)
          (dedupe_cases (find_twin F stringify parse_json (truthy d.unique_key) seen) json)
  ]
    where
      dedupe_cases :
          (o : Option (TaskRow F)) (json : String)
          → let r = new_row F stringify parse_json d i now json in
            ((dedupe F stringify parse_json o r t).1 ≡ t)
            ⊎ ((json' : String) × ((dedupe F stringify parse_json o r t).1
                  ≡ t ++ new_row F stringify parse_json d i now json' ∷ [])
                × (any (λ s. s.id == i) t ≡ false)
                × (same_key F d.unique_key t ≡ false))
      dedupe_cases (some existing) json = inl refl
      dedupe_cases none json =
          elim (insert_row_cases (new_row F stringify parse_json d i now json) t) [
            | inl e ↦ rw (e, store) (inl refl)
            | inr (e, i, k) ↦ rw (e, store) (inr (json, refl, i, k))
          ]

  -- What a call is about to do to the rows.
  abbrev pub changes_of : Call F Payload → List Change
  changes_of (enqueue_task d i now seen) = enqueues ∷ []
  changes_of (claim limit types now later) = claims ∷ reads ∷ []
  changes_of (complete i now) = completes i ∷ []
  changes_of (fail random i x now base seen) = fails i ∷ []
  changes_of (cancel_task i reason now) = cancels i ∷ []
  changes_of (recover timeout_ms now) = recovers ∷ []

  abbrev pub all_changes : List (Call F Payload) → List Change
  all_changes [] = []
  all_changes (c ∷ cs) = changes_of c ++ all_changes cs

  -- No call removes a row or reorders the table, and each changes the rows as it is to.
  pub perform-Extends : (c : Call F Payload) (t : Table F) → Extends (changes_of c) t (perform c t)
  unfolding perform claim_next_batch mark_failed
  perform-Extends (enqueue_task d i now seen) t = elim (enqueue_cases d i now seen t) [
    | inl e ↦ subst (Extends (enqueues ∷ []) t) (sym e) (Extends-stay (enqueues ∷ []) t)
    | inr (json, e, fresh, unused) ↦
        subst (Extends (enqueues ∷ []) t) (sym e) (Extends-append (enqueues ∷ []) t _)
  ]
  perform-Extends (claim limit types now later) t =
      if_ind
        (λ (r : Result QueueError (List (TaskRecord F Payload)) × Table F).
          Extends (claims ∷ reads ∷ []) t r.1)
        (not (is_positive_safe limit)) (λ _. Extends-stay (claims ∷ reads ∷ []) t)
        λ _.
          let ids = chosen (pos_part limit) types now t in
          Extends-trans (claims ∷ []) (reads ∷ []) t
            (update_where (is_claimed ids) (claim_row now) t) _ (Extends-claim ids now t)
            (Extends-read_rows parse_json later (claimed_rows ids now t)
              (update_where (is_claimed ids) (claim_row now) t))
  perform-Extends (complete i now) t = Extends-mark_completed i now t
  perform-Extends (fail random i x now base seen) t =
      Extends-fail_row random (find_row F i seen) i x now base t
  perform-Extends (cancel_task i reason now) t = Extends-cancel i reason now t
  perform-Extends (recover timeout_ms now) t = Extends-recover timeout_ms now t
