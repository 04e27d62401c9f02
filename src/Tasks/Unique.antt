-- ===== src/Tasks/Unique.antt =====
-- The unique indexes of core_background_tasks under the calls of TaskQueueService.
use tauri_boilerplate.Base.{
  ℕ, ◌≡◌, ◌≤◌, ◌+◌, ◌-◌, refl, ap, ◌∙◌, ◌⊎◌, inl, inr, Bool, true, false, List, [], ◌∷◌, ◌++◌,
  arith, String, Option, none, some, Result, if_ind, not, any, filter, length, ◌==◌, string_eq,
  ==_iff, update_where, subst, sym, Option-cases, Bool-cases,
}
use tauri_boilerplate.Base.Int.{pos_part}
use tauri_boilerplate.Tasks.Floats.{Floats}
use tauri_boilerplate.Tasks.Types.{running, task_state_eq, Thrown, TaskRow, TaskRecord}
use tauri_boilerplate.Tasks.Table.{
  QueueError, find_row, Table, is_active, is_positive_safe, key_is, same_key, holds_key,
}
use tauri_boilerplate.Tasks.Enqueue.{new_row}
use tauri_boilerplate.Tasks.Claim.{
  is_corrupt, quarantine_row, quarantine, chosen, is_claimed, claim_row, claimed_rows, read_rows,
  claim_next_batch,
}
use tauri_boilerplate.Tasks.Retry.{RetryDecision, retry, give_up, decide}
use tauri_boilerplate.Tasks.Finish.{
  row_policy, runs, complete_row, can_cancel, cancel_row, is_hanging, recover_row, same_attempt,
  reschedule_row, give_up_row, mark_completed, settle, mark_failed, fail_row, cancel,
  recover_hanging_tasks,
}
use tauri_boilerplate.Tasks.Life.{Change}
use tauri_boilerplate.Tasks.Lifecycle.{Evolves, Extends}
use tauri_boilerplate.Tasks.Calls.{
  Call, enqueue_task, claim, complete, fail, cancel_task, recover, perform, perform_all,
  enqueue_cases, perform-Extends,
}

module _ {F : Floats} where
  abbrev pub count : (TaskRow F → Bool) → Table F → ℕ
  count p t = length (filter p t)

  count-append : (p : TaskRow F → Bool) (t u : Table F) → count p (t ++ u) ≡ count p t + count p u
  count-append p [] u = omega arith
  count-append p (r ∷ t) u = ground (arith, count-append p t u)

  count-append-one :
      (p : TaskRow F → Bool) (t : Table F) (r : TaskRow F)
      → (p r ≡ true → count p t ≡ 0)
      → count p t ≤ 1
      → count p (t ++ r ∷ []) ≤ 1
  count-append-one p t r alone le = ground (arith, alone, le, count-append p t (r ∷ []))

  none-count : (p : TaskRow F → Bool) (t : Table F) → any p t ≡ false → count p t ≡ 0
  none-count p [] h = refl
  none-count p (r ∷ t) h = ground (arith, none-count p t)

  -- A test that no row comes to satisfy counts no more rows afterwards.
  count-shrinks :
      (cs : List Change) (p : TaskRow F → Bool)
      → ((r s : TaskRow F) → Evolves cs r s → p s ≡ true → p r ≡ true)
      → (t u : Table F) → Extends cs t u
      → length u ≡ length t
      → count p u ≤ count p t
  count-shrinks cs p back [] [] h e = omega arith
  count-shrinks cs p back [] (s ∷ u) h e = ground arith
  count-shrinks cs p back (r ∷ t) [] h e = absurd h
  count-shrinks cs p back (r ∷ t) (s ∷ u) (ev, h) e =
      let rest = count-shrinks cs p back t u h (ground arith) in ground (arith, rest, back r s ev)

  length-update :
      (p : TaskRow F → Bool) (f : TaskRow F → TaskRow F) (t : Table F)
      → length (update_where p f t) ≡ length t
  length-update p f [] = refl
  length-update p f (r ∷ t) = omega (arith, length-update p f t)

  length-read_rows :
      {Payload : Type 0} (parse_json : String → Option Payload) (later : String → ℕ)
      (rs : List (TaskRow F)) (t : Table F)
      → length (read_rows parse_json later rs t).1 ≡ length t
  unfolding read_rows
  length-read_rows parse_json later [] t = refl
  length-read_rows parse_json later (r ∷ rs) t = elim (Option-cases (parse_json r.payload_json)) [
    | inl e ↦
        rw (e, read_rows, length-read_rows parse_json later rs (quarantine (later r.id) r.id t))
          (length-update (is_corrupt r.id) (quarantine_row (later r.id)) t)
    | inr (p, e) ↦ rw (e, read_rows) (length-read_rows parse_json later rs t)
  ]

  length-settle :
      (d : RetryDecision) (seen : TaskRow F) (i : String) (x : Thrown) (now base : ℕ) (t : Table F)
      → length (settle d seen i x now base t).1 ≡ length t
  unfolding settle
  length-settle (retry ms) seen i x now base =
      length-update (same_attempt seen i) (reschedule_row ms x now base)
  length-settle give_up seen i x now base = length-update (same_attempt seen i) (give_up_row x now)

  length-fail_row :
      (random : F.Num) (o : Option (TaskRow F)) (i : String) (x : Thrown) (now base : ℕ)
      (t : Table F)
      → length (fail_row random o i x now base t).1 ≡ length t
  unfolding fail_row
  length-fail_row random none i x now base t = refl
  length-fail_row random (some seen) i x now base t =
      if_ind (λ (r : Bool × Table F). length r.1 ≡ length t) (not (seen.state == running))
        (λ _. refl)
        λ _.
          length-settle (decide F random x seen.attempt_count (row_policy seen)) seen i x now base t

  -- At most one row has the id, and at most one active row the key.
  pub record IsUnique (t : Table F) : Type 0 where
    pub by_id : (i : String) → count (λ r. r.id == i) t ≤ 1
    pub by_key : (k : String) → count (holds_key F k) t ≤ 1

  id-back :
      (cs : List Change) (i : String) (r s : TaskRow F)
      → Evolves cs r s
      → (s.id == i) ≡ true
      → (r.id == i) ≡ true
  id-back cs i r s ev h = subst (λ j. (j == i) ≡ true) ev.same_id h

  key-back :
      (cs : List Change) (k : String) (r s : TaskRow F)
      → Evolves cs r s
      → holds_key F k s ≡ true
      → holds_key F k r ≡ true
  key-back cs k r s ev h = elim (Bool-cases (is_active r.state)) [
    | inl a ↦ ground (arith, a, ev.same_key)
    | inr a ↦ ground (arith, a, ev.frozen a)
  ]

  IsUnique-shrinks :
      (cs : List Change) (t u : Table F)
      → Extends cs t u
      → length u ≡ length t
      → IsUnique t
      → IsUnique u
  IsUnique-shrinks cs t u h e unique = record {
    by_id = λ i.
        omega (arith, count-shrinks cs (λ r. r.id == i) (id-back cs i) t u h e, unique.by_id i);
    by_key = λ k.
        omega (arith, count-shrinks cs (holds_key F k) (key-back cs k) t u h e, unique.by_key k);
  }

module _ {F : Floats} {Payload : Type 0} (stringify : Payload → Option String)
    (parse_json : String → Option Payload) where
  -- A call keeps the number of rows, or adds one row whose id and active key are new.
  perform-grows :
      (c : Call F Payload) (t : Table F)
      → (length (perform stringify parse_json c t) ≡ length t)
        ⊎ ((r : TaskRow F) × (perform stringify parse_json c t ≡ t ++ r ∷ [])
            × (any (λ s. s.id == r.id) t ≡ false)
            × (same_key F r.unique_key t ≡ false))
  unfolding perform claim_next_batch mark_failed mark_completed cancel recover_hanging_tasks new_row
  perform-grows (enqueue_task d i now seen) t =
      elim (enqueue_cases stringify parse_json d i now seen t) [
        | inl e ↦ inl (ap length e)
        | inr (json, e, fresh, unused) ↦
            inr (new_row F stringify parse_json d i now json, e, fresh, unused)
      ]
  perform-grows (claim limit types now later) t = inl (
      if_ind
        (λ (r : Result QueueError (List (TaskRecord F Payload)) × Table F). length r.1 ≡ length t)
        (not (is_positive_safe limit)) (λ _. refl)
        λ _.
          let ids = chosen (pos_part limit) types now t in
          length-read_rows parse_json later (claimed_rows ids now t)
            (update_where (is_claimed ids) (claim_row now) t)
          ∙ length-update (is_claimed ids) (claim_row now) t)
  perform-grows (complete i now) t = inl (length-update (runs i) (complete_row now) t)
  perform-grows (fail random i x now base seen) t =
      inl (length-fail_row random (find_row F i seen) i x now base t)
  perform-grows (cancel_task i reason now) t =
      inl (length-update (can_cancel i) (cancel_row reason now) t)
  perform-grows (recover timeout now) t =
      inl (length-update (is_hanging (now - timeout)) (recover_row now) t)

  same_key-any :
      (k : String) (o : Option String) (t : Table F)
      → same_key F o t ≡ false
      → key_is k o ≡ true
      → any (holds_key F k) t ≡ false
  same_key-any k none t h e = ground arith
  same_key-any k (some j) t h e = subst (λ i. any (holds_key F i) t ≡ false) ((==_iff j k).0 e) h

  IsUnique-append :
      (t : Table F) (r : TaskRow F)
      → any (λ s. s.id == r.id) t ≡ false
      → same_key F r.unique_key t ≡ false
      → IsUnique t
      → IsUnique (t ++ r ∷ [])
  IsUnique-append t r fresh unused unique = record {
    by_id = λ i.
        count-append-one (λ s. s.id == i) t r
          (λ h.
            none-count (λ s. s.id == i) t
              (subst (λ j. any (λ (s : TaskRow F). s.id == j) t ≡ false) ((==_iff r.id i).0 h)
                fresh))
          (unique.by_id i);
    by_key = λ k.
        count-append-one (holds_key F k) t r
          (λ h. none-count (holds_key F k) t (same_key-any k r.unique_key t unused (ground arith)))
          (unique.by_key k);
  }

  perform-IsUnique :
      (c : Call F Payload) (t : Table F) → IsUnique t → IsUnique (perform stringify parse_json c t)
  perform-IsUnique c t unique = elim (perform-grows c t) [
    | inl e ↦
        IsUnique-shrinks _ t (perform stringify parse_json c t)
          (perform-Extends stringify parse_json c t) e unique
    | inr (r, e, fresh, unused) ↦ subst IsUnique (sym e) (IsUnique-append t r fresh unused unique)
  ]

  -- Whatever calls workers make and in whatever order, a table in which ids are unique and each key has
  -- at most one active task stays such a table.
  pub perform_all-IsUnique :
      (cs : List (Call F Payload)) (t : Table F)
      → IsUnique t
      → IsUnique (perform_all stringify parse_json cs t)
  unfolding perform_all
  perform_all-IsUnique [] t unique = unique
  perform_all-IsUnique (c ∷ cs) t unique =
      perform_all-IsUnique cs (perform stringify parse_json c t) (perform-IsUnique c t unique)
