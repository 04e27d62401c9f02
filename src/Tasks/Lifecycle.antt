-- ===== src/Tasks/Lifecycle.antt =====
-- Which changes the calls of TaskQueueService make to the rows of the table.
use tauri_boilerplate.Base.{
  ℕ, ◌-◌, ◌≡◌, ◌≤◌, refl, inl, inr, ◌∙◌, sym, subst, Bool, true, false, List, [], ◌∷◌, ◌++◌, arith,
  String, Option, none, some, update_where, if_ind, ◌==◌, string_eq, Option-cases, not, ==_iff,
}
use tauri_boilerplate.Tasks.Floats.{Floats}
use tauri_boilerplate.Tasks.Types.{
  TaskState, pending, running, completed, failed, cancelled, task_state_eq, task_state_beq_iff,
  Thrown, TaskRow,
}
use tauri_boilerplate.Tasks.Life.{
  Change, claims, reads, recovers, completes, fails, cancels, Stage, Takes, starts, quarantines,
  finishes, retries, gives_up, cancels_waiting, cancels_running, requeues, Life, ends, takes,
  Life-append, Life-stay, reads-twice,
}
use tauri_boilerplate.Tasks.Table.{Table, is_active}
use tauri_boilerplate.Tasks.Retry.{RetryDecision, retry, give_up}
use tauri_boilerplate.Tasks.Claim.{
  is_claimed, claim_row, is_corrupt, quarantine_row, quarantine, read_rows,
}
use tauri_boilerplate.Tasks.Finish.{
  runs, complete_row, reschedule_row, give_up_row, can_cancel, cancel_row, recover_row,
  mark_completed, same_attempt, settle, fail_row, cancel, is_hanging, recover_hanging_tasks,
}

module _ {F : Floats} where
  abbrev pub stage : TaskRow F → Stage
  stage r = (r.state, r.attempt_count)

  -- What a row may become under some changes: the same task, at a stage to which they take it, with no attempt
  -- uncounted; a row that is COMPLETED, FAILED or CANCELLED stays exactly as it is.
  pub record Evolves (cs : List Change) (r s : TaskRow F) : Type 0 where
    pub same_id : s.id ≡ r.id
    pub same_key : s.unique_key ≡ r.unique_key
    pub same_payload : s.payload_json ≡ r.payload_json
    pub same_limit : s.max_attempts ≡ r.max_attempts
    pub life : Life r.id cs (stage r) (stage s)
    pub attempts : r.attempt_count ≤ s.attempt_count
    pub frozen : is_active r.state ≡ false → s ≡ r

  Evolves-stay : (cs : List Change) (r : TaskRow F) → Evolves cs r r
  Evolves-stay cs r = record {
    same_id = refl;
    same_key = refl;
    same_payload = refl;
    same_limit = refl;
    life = Life-stay cs;
    attempts = omega arith;
    frozen = λ h. refl;
  }

  -- One row after another, when the lives are joined to a life under other changes.
  Evolves-join :
      {cs ds es : List Change} {r s u : TaskRow F}
      → ((i : String) (x y z : Stage) → Life i cs x y → Life i ds y z → Life i es x z)
      → Evolves cs r s
      → Evolves ds s u
      → Evolves es r u
  Evolves-join {ds} {r} {s} {u} join p q = record {
    same_id = q.same_id ∙ p.same_id;
    same_key = q.same_key ∙ p.same_key;
    same_payload = q.same_payload ∙ p.same_payload;
    same_limit = q.same_limit ∙ p.same_limit;
    life =
        join r.id (stage r) (stage s) (stage u) p.life
          (subst (λ i. Life i ds (stage s) (stage u)) p.same_id q.life);
    attempts = omega (arith, p.attempts, q.attempts);
    frozen = λ h.
        q.frozen (subst (λ (x : TaskRow F). is_active x.state ≡ false) (sym (p.frozen h)) h)
        ∙ p.frozen h;
  }

  -- Every row of the first table stands at its place in the second, evolved; new rows follow.
  abbrev pub Extends : List Change → Table F → Table F → Type 0
  Extends cs [] u = Unit
  Extends cs (r ∷ t) [] = ⊥
  Extends cs (r ∷ t) (s ∷ u) = Evolves cs r s × Extends cs t u

  pub Extends-stay : (cs : List Change) (t : Table F) → Extends cs t t
  Extends-stay cs [] = tt
  Extends-stay cs (r ∷ t) = (Evolves-stay cs r, Extends-stay cs t)

  Extends-join :
      (cs ds es : List Change)
      → ((i : String) (x y z : Stage) → Life i cs x y → Life i ds y z → Life i es x z)
      → (t u v : Table F) → Extends cs t u
      → Extends ds u v
      → Extends es t v
  Extends-join cs ds es join [] u v h k = tt
  Extends-join cs ds es join (r ∷ t) [] v h k = absurd h
  Extends-join cs ds es join (r ∷ t) (s ∷ u) [] h k = absurd k
  Extends-join cs ds es join (r ∷ t) (s ∷ u) (w ∷ v) (e, h) (f, k) =
      (Evolves-join join e f, Extends-join cs ds es join t u v h k)

  pub Extends-trans :
      (cs ds : List Change) (t u v : Table F)
      → Extends cs t u
      → Extends ds u v
      → Extends (cs ++ ds) t v
  Extends-trans cs ds = Extends-join cs ds (cs ++ ds) λ i x y z. Life-append

  pub Extends-append : (cs : List Change) (t u : Table F) → Extends cs t (t ++ u)
  Extends-append cs [] u = tt
  Extends-append cs (r ∷ t) u = (Evolves-stay cs r, Extends-append cs t u)

  Extends-update :
      (c : Change) (p : TaskRow F → Bool) (f : TaskRow F → TaskRow F)
      → ((r : TaskRow F) → p r ≡ true → Evolves (c ∷ []) r (f r))
      → (t : Table F) → Extends (c ∷ []) t (update_where p f t)
  Extends-update c p f hit [] = tt
  Extends-update c p f hit (r ∷ t) = (
    if_ind (Evolves (c ∷ []) r) (p r) (hit r) (λ _. Evolves-stay (c ∷ []) r),
    Extends-update c p f hit t,
  )

is_state : (s t : TaskState) → (s == t) ≡ true → s ≡ t
is_state s t = (task_state_beq_iff s t).0

module _ {F : Floats} where
  -- A row that an UPDATE takes along one edge, from an active state.
  moves :
      (c : Change) (r s : TaskRow F) (from : TaskState)
      → r.state ≡ from
      → is_active from ≡ true
      → Takes r.id c (from, r.attempt_count) (stage s)
      → (s.id ≡ r.id)
        × (s.unique_key ≡ r.unique_key)
        × (s.payload_json ≡ r.payload_json)
        × (s.max_attempts ≡ r.max_attempts)
      → r.attempt_count ≤ s.attempt_count
      → Evolves (c ∷ []) r s
  moves c r s from e active edge (i, k, p, m) le = record {
    same_id = i;
    same_key = k;
    same_payload = p;
    same_limit = m;
    life = takes (subst (λ q. Takes r.id c (q, r.attempt_count) (stage s)) (sym e) edge) ends;
    attempts = le;
    frozen = λ h. ground arith;
  }

  is_named : (r : TaskRow F) (i : String) → (r.id == i) ≡ true → r.id ≡ i
  is_named r i = (==_iff r.id i).0

  Extends-quarantine :
      (now : ℕ) (i : String) (t : Table F) → Extends (reads ∷ []) t (quarantine now i t)
  Extends-quarantine now i = Extends-update reads (is_corrupt i) (quarantine_row now) λ r h.
      moves reads r (quarantine_row now r) running (is_state r.state running (ground arith)) refl
        quarantines (refl, refl, refl, refl) (omega arith)

  pub Extends-read_rows :
      {Payload : Type 0} (parse_json : String → Option Payload) (later : String → ℕ)
      (rs : List (TaskRow F)) (t : Table F)
      → Extends (reads ∷ []) t (read_rows parse_json later rs t).1
  unfolding read_rows
  Extends-read_rows parse_json later [] t = Extends-stay (reads ∷ []) t
  Extends-read_rows parse_json later (r ∷ rs) t = elim (Option-cases (parse_json r.payload_json)) [
    | inl e ↦
        rw (e, read_rows)
          (Extends-join (reads ∷ []) (reads ∷ []) (reads ∷ []) (λ i x y z. reads-twice) t _ _
            (Extends-quarantine (later r.id) r.id t)
            (Extends-read_rows parse_json later rs (quarantine (later r.id) r.id t)))
    | inr (p, e) ↦ rw (e, read_rows) (Extends-read_rows parse_json later rs t)
  ]

  pub Extends-claim :
      (ids : List String) (now : ℕ) (t : Table F)
      → Extends (claims ∷ []) t (update_where (is_claimed ids) (claim_row now) t)
  Extends-claim ids now = Extends-update claims (is_claimed ids) (claim_row now) λ r h.
      moves claims r (claim_row now r) pending (is_state r.state pending (ground arith)) refl starts
        (refl, refl, refl, refl) (omega arith)

  pub Extends-mark_completed :
      (i : String) (now : ℕ) (t : Table F) → Extends (completes i ∷ []) t (mark_completed i now t)
  unfolding mark_completed
  Extends-mark_completed i now = Extends-update (completes i) (runs i) (complete_row now) λ r h.
      moves (completes i) r (complete_row now r) running (is_state r.state running (ground arith))
        refl (finishes (is_named r i (ground arith))) (refl, refl, refl, refl) (omega arith)

  Extends-settle :
      (d : RetryDecision) (seen : TaskRow F) (i : String) (x : Thrown) (now base : ℕ) (t : Table F)
      → Extends (fails i ∷ []) t (settle d seen i x now base t).1
  unfolding settle
  Extends-settle (retry ms) seen i x now base =
      Extends-update (fails i) (same_attempt seen i) (reschedule_row ms x now base) λ r h.
        moves (fails i) r (reschedule_row ms x now base r) running
          (is_state r.state running (ground arith)) refl (retries (is_named r i (ground arith)))
          (refl, refl, refl, refl) (omega arith)
  Extends-settle give_up seen i x now base =
      Extends-update (fails i) (same_attempt seen i) (give_up_row x now) λ r h.
        moves (fails i) r (give_up_row x now r) running (is_state r.state running (ground arith))
          refl (gives_up (is_named r i (ground arith))) (refl, refl, refl, refl) (omega arith)

  pub Extends-fail_row :
      (random : F.Num) (o : Option (TaskRow F)) (i : String) (x : Thrown) (now base : ℕ)
      (t : Table F)
      → Extends (fails i ∷ []) t (fail_row random o i x now base t).1
  unfolding fail_row
  Extends-fail_row random none i x now base t = Extends-stay (fails i ∷ []) t
  Extends-fail_row random (some seen) i x now base t =
      if_ind (λ (r : Bool × Table F). Extends (fails i ∷ []) t r.1) (not (seen.state == running))
        (λ _. Extends-stay (fails i ∷ []) t) (λ _. Extends-settle _ seen i x now base t)

  cancel-Evolves :
      (i reason : String) (now : ℕ) (r : TaskRow F) (s : TaskState)
      → r.id ≡ i
      → r.state ≡ s
      → is_active s ≡ true
      → Evolves (cancels i ∷ []) r (cancel_row reason now r)
  cancel-Evolves i reason now r pending n e a =
      moves (cancels i) r (cancel_row reason now r) pending e refl (cancels_waiting n)
        (refl, refl, refl, refl) (omega arith)
  cancel-Evolves i reason now r running n e a =
      moves (cancels i) r (cancel_row reason now r) running e refl (cancels_running n)
        (refl, refl, refl, refl) (omega arith)
  cancel-Evolves i reason now r completed n e a = cc
  cancel-Evolves i reason now r failed n e a = cc
  cancel-Evolves i reason now r cancelled n e a = cc

  pub Extends-cancel :
      (i reason : String) (now : ℕ) (t : Table F)
      → Extends (cancels i ∷ []) t (cancel i reason now t)
  unfolding cancel
  Extends-cancel i reason now =
      Extends-update (cancels i) (can_cancel i) (cancel_row reason now) λ r h.
        cancel-Evolves i reason now r r.state (is_named r i (ground arith)) refl (ground arith)

  pub Extends-recover :
      (timeout now : ℕ) (t : Table F)
      → Extends (recovers ∷ []) t (recover_hanging_tasks timeout now t).1
  unfolding recover_hanging_tasks
  Extends-recover timeout now =
      Extends-update recovers (is_hanging (now - timeout)) (recover_row now) λ r h.
        moves recovers r (recover_row now r) running (is_state r.state running (ground arith)) refl
          requeues (refl, refl, refl, refl) (omega arith)
