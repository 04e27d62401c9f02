-- ===== src/Tasks/Claims.antt =====
-- What claimNextBatch of packages/tasks/src/queue/TaskQueueService.ts hands out.
use tauri_boilerplate.Base.{
  ℕ, ◌≡◌, ◌≢◌, ◌≤◌, ◌+◌, refl, inl, inr, Bool, true, false, List, [], ◌∷◌, arith, String, Option,
  Result, ok, ok_injective, if_ind, not, ◌&&◌, ◌||◌, any, filter, take, map, length, length-take,
  ◌==◌, string_eq, ==_refl, ==_iff, update_where, subst, sym, Option-cases, All, Any, All-mono,
  All-filter, All-map, All-sort_by, All-update_where, All-update_keep, Any-mono, All-Any, All-of,
  here, there, any-sort_by, any-take, length-sort_by, sort_by, ap, ◌∙◌, suc,
}
use tauri_boilerplate.Base.Int.{ℤ, pos_part}
use tauri_boilerplate.Tasks.Floats.{Floats}
use tauri_boilerplate.Tasks.Types.{pending, task_state_eq, task_state_beq_iff, TaskRow, TaskRecord}
use tauri_boilerplate.Tasks.Table.{QueueError, Table, is_positive_safe, row_to_record}
use tauri_boilerplate.Tasks.Claim.{
  is_corrupt, quarantine_row, quarantine, is_due, chosen, is_claimed, claim_row, claimed_rows,
  read_rows, claim_next_batch,
}
use tauri_boilerplate.Tasks.Unique.{count, IsUnique}

module _ {F : Floats} where
  any-count :
      (q p : TaskRow F → Bool) (t : Table F) → any (λ s. q s && p s) t ≡ true → 1 ≤ count q t
  any-count q p [] e = ground arith
  any-count q p (s ∷ t) e = ground (arith, any-count q p t)

  place-count :
      (q : TaskRow F → Bool) (r : TaskRow F) (t : Table F)
      → Any (λ s. s ≡ r) t
      → q r ≡ true
      → 1 ≤ count q t
  place-count q r [] h e = elim h [ ]
  place-count q r (s ∷ t) (here h) e = let e' = subst (λ u. q u ≡ true) (sym h) e in ground arith
  place-count q r (s ∷ t) (there h) e = let rest = place-count q r t h e in ground arith

  -- Where at most one row passes `q`, a row there that passes it also passes what some such row does.
  count-test :
      (q p : TaskRow F → Bool) (r : TaskRow F) (t : Table F)
      → Any (λ s. s ≡ r) t
      → q r ≡ true
      → any (λ s. q s && p s) t ≡ true
      → count q t ≤ 1
      → p r ≡ true
  count-test q p r [] h own e le = elim h [ ]
  count-test q p r (s ∷ t) (here h) own e le =
      subst (λ u. p u ≡ true) h
        (let own' = subst (λ u. q u ≡ true) (sym h) own in ground (arith, any-count q p t))
  count-test q p r (s ∷ t) (there h) own e le =
      let one = place-count q r t h own in count-test q p r t h own (ground arith) (ground arith)

  any-map_ids :
      (i : String) (t : Table F) → any (λ j. j == i) (map (λ s. s.id) t) ≡ any (λ s. s.id == i) t
  any-map_ids i [] = refl
  any-map_ids i (r ∷ t) = ap (λ b. (r.id == i) || b) (any-map_ids i t)

  any-ids :
      (p : TaskRow F → Bool) (i : String) (t : Table F)
      → any (λ s. s.id == i) (filter p t) ≡ any (λ s. s.id == i && p s) t
  any-ids p i [] = refl
  any-ids p i (r ∷ t) = ground (arith, any-ids p i t)

  -- A row there whose id is chosen is due, if ids are unique.
  chosen-is_due :
      (limit : ℕ) (types : Option (List String)) (now : ℕ) (t : Table F)
      → IsUnique t
      → (r : TaskRow F) → Any (λ s. s ≡ r) t
      → any (λ j. j == r.id) (chosen limit types now t) ≡ true
      → is_due types now r ≡ true
  unfolding chosen
  chosen-is_due limit types now t unique r h e =
      let due = filter (is_due types now) t in
      let sorted = sort_by (λ s. s.scheduled_at) due in
      let found : any (λ s. s.id == r.id) sorted ≡ true =
        any-take (λ s. s.id == r.id) limit sorted
          (sym (any-map_ids r.id (take limit sorted)) ∙ e) in
      let found' = sym (any-sort_by (λ s. s.id == r.id) (λ s. s.scheduled_at) due) ∙ found in
      count-test (λ s. s.id == r.id) (is_due types now) r t h (==_refl r.id)
        (sym (any-ids (is_due types now) r.id t) ∙ found') (unique.by_id r.id)

  count-or :
      (p q : TaskRow F → Bool) (t : Table F) → count (λ s. p s || q s) t ≤ count p t + count q t
  count-or p q [] = omega arith
  count-or p q (s ∷ t) = ground (arith, count-or p q t)

  count-flip : (i : String) (t : Table F) → count (λ s. i == s.id) t ≡ count (λ s. s.id == i) t
  count-flip i [] = refl
  count-flip i (s ∷ t) = ground (arith, count-flip i t, ==_iff i s.id, ==_iff s.id i)

  -- At most as many rows as ids are claimed, if ids are unique.
  count-ids :
      (ids : List String) (t : Table F)
      → IsUnique t
      → count (λ s. any (λ i. i == s.id) ids) t ≤ length ids
  count-ids [] t unique = none-counted t
    where
      none-counted : (u : Table F) → count (λ s. false) u ≤ 0
      none-counted [] = omega arith
      none-counted (s ∷ u) = none-counted u
  count-ids (i ∷ ids) t unique = omega (
    arith,
    count-or (λ s. i == s.id) (λ s. any (λ j. j == s.id) ids) t,
    count-ids ids t unique,
    count-flip i t,
    unique.by_id i,
  )

  count-and : (p q : TaskRow F → Bool) (t : Table F) → count (λ s. p s && q s) t ≤ count p t
  count-and p q [] = omega arith
  count-and p q (s ∷ t) = ground (arith, count-and p q t)

  length-map : (f : TaskRow F → TaskRow F) (t : Table F) → length (map f t) ≡ length t
  length-map f [] = refl
  length-map f (s ∷ t) = ap suc (length-map f t)

  length-ids : (t : Table F) → length (map (λ s. s.id) t) ≡ length t
  length-ids [] = refl
  length-ids (s ∷ t) = ap suc (length-ids t)

  length-claimed :
      (limit : ℕ) (types : Option (List String)) (now : ℕ) (t : Table F)
      → IsUnique t
      → length (claimed_rows (chosen limit types now t) now t) ≤ limit
  unfolding chosen claimed_rows
  length-claimed limit types now t unique =
      let due = sort_by (λ s. s.scheduled_at) (filter (is_due types now) t) in
      let ids = map (λ s. s.id) (take limit due) in
      omega (
        arith,
        length-sort_by (λ s. s.scheduled_at) (map (claim_row now) (filter (is_claimed ids) t)),
        length-map (claim_row now) (filter (is_claimed ids) t),
        count-and (λ s. any (λ i. i == s.id) ids) (λ s. s.state == pending) t,
        count-ids ids t unique,
        length-ids (take limit due),
        length-take limit due,
      )

module _ {F : Floats} {Payload : Type 0} (parse_json : String → Option Payload) where
  -- The loop hands out rows that it was given, and no more of them.
  read_rows-All :
      (P : TaskRow F → Type 0) (later : String → ℕ) (rs : List (TaskRow F)) (t : Table F)
      → All P rs
      → All (λ (u : TaskRecord F Payload). P u.row) (read_rows parse_json later rs t).0
        × (length (read_rows parse_json later rs t).0 ≤ length rs)
  unfolding read_rows row_to_record
  read_rows-All P later [] t h = (tt, omega arith)
  read_rows-All P later (r ∷ rs) t (pr, h) = elim (Option-cases (parse_json r.payload_json)) [
    | inl e ↦
        let rest = read_rows-All P later rs (quarantine (later r.id) r.id t) h in
        rw (e, read_rows, row_to_record) (rest.0, ground arith)
    | inr (p, e) ↦
        let rest = read_rows-All P later rs t h in
        rw (e, read_rows, row_to_record) ((pr, rest.0), ground arith)
  ]

  claimed-due :
      (limit : ℕ) (types : Option (List String)) (now : ℕ) (t : Table F)
      → IsUnique t
      → All
          (λ u. Any (λ r. (is_due types now r ≡ true) × (u ≡ claim_row now r)) t)
          (claimed_rows (chosen limit types now t) now t)
  unfolding claimed_rows
  claimed-due limit types now t unique =
      let ids = chosen limit types now t in
      let FromDue =
        λ (u : TaskRow F). Any (λ r. (is_due types now r ≡ true) × (u ≡ claim_row now r)) t in
      All-sort_by FromDue (λ s. s.scheduled_at) (map (claim_row now) (filter (is_claimed ids) t))
        (All-map FromDue (claim_row now) (filter (is_claimed ids) t) (
          All-filter (λ r. FromDue (claim_row now r)) (is_claimed ids) t
            (All-mono {Q = λ (r : TaskRow F). is_claimed ids r ≡ true → FromDue (claim_row now r)}
              (λ (r : TaskRow F) (h : Any (λ s. s ≡ r) t) (e : is_claimed ids r ≡ true).
                let due = chosen-is_due limit types now t unique r h (ground arith) in
                Any-mono
                  (λ (s : TaskRow F) (k : s ≡ r). (
                    subst (λ u. is_due types now u ≡ true) (sym k) due,
                    ap (claim_row now) (sym k),
                  ))
                  t h)
              t (All-Any t))))

  -- After the calls no PENDING row has one of the ids, and the next batch is of PENDING rows.
  abbrev Unclaimed : List String → TaskRow F → Type 0
  Unclaimed ids s = s.state ≡ pending → any (λ i. i == s.id) ids ≡ false

  claim-Unclaimed :
      (ids : List String) (now : ℕ) (t : Table F)
      → All (Unclaimed ids) (update_where (is_claimed ids) (claim_row now) t)
  claim-Unclaimed ids now =
      All-update_where (Unclaimed ids) (is_claimed ids) (claim_row now) (λ s h e. ground arith)
        (λ s h e. ground arith)

  read_rows-Unclaimed :
      (ids : List String) (later : String → ℕ) (rs : List (TaskRow F)) (t : Table F)
      → All (Unclaimed ids) t
      → All (Unclaimed ids) (read_rows parse_json later rs t).1
  unfolding read_rows row_to_record
  read_rows-Unclaimed ids later [] t h = h
  read_rows-Unclaimed ids later (r ∷ rs) t h = elim (Option-cases (parse_json r.payload_json)) [
    | inl e ↦
        rw (e, read_rows, row_to_record)
          (read_rows-Unclaimed ids later rs (quarantine (later r.id) r.id t) (
            All-update_keep (Unclaimed ids) (is_corrupt r.id) (quarantine_row (later r.id))
              (λ s k e. ground arith) t h))
    | inr (p, e) ↦ rw (e, read_rows, row_to_record) (read_rows-Unclaimed ids later rs t h)
  ]

  -- Every row that is handed out has a claimed id.
  claimed-ids :
      (ids : List String) (now : ℕ) (t : Table F)
      → All (λ u. any (λ i. i == u.id) ids ≡ true) (claimed_rows ids now t)
  unfolding claimed_rows
  claimed-ids ids now t =
      let Chosen = λ (u : TaskRow F). any (λ i. i == u.id) ids ≡ true in
      All-sort_by Chosen (λ s. s.scheduled_at) (map (claim_row now) (filter (is_claimed ids) t))
        (All-map Chosen (claim_row now) (filter (is_claimed ids) t) (
          All-filter (λ r. Chosen (claim_row now r)) (is_claimed ids) t
            (All-of (λ r. is_claimed ids r ≡ true → Chosen (claim_row now r)) (λ r e. ground arith)
              t)))

  -- A table with no PENDING row under the ids hands out none of them.
  claimed-Unclaimed :
      (old ids : List String) (now : ℕ) (t : Table F)
      → All (Unclaimed old) t
      → All (λ u. any (λ i. i == u.id) old ≡ false) (claimed_rows ids now t)
  unfolding claimed_rows
  claimed-Unclaimed old ids now t h =
      let Fresh = λ (u : TaskRow F). any (λ i. i == u.id) old ≡ false in
      All-sort_by Fresh (λ s. s.scheduled_at) (map (claim_row now) (filter (is_claimed ids) t))
        (All-map Fresh (claim_row now) (filter (is_claimed ids) t) (
          All-filter (λ r. Fresh (claim_row now r)) (is_claimed ids) t
            (All-mono {Q = λ (r : TaskRow F). is_claimed ids r ≡ true → Fresh (claim_row now r)}
              (λ (r : TaskRow F) (k : Unclaimed old r) (e : is_claimed ids r ≡ true).
                k (is_pending r ids e))
              t h)))
    where
      is_pending : (r : TaskRow F) (ids : List String) → is_claimed ids r ≡ true → r.state ≡ pending
      is_pending r ids e = (task_state_beq_iff r.state pending).0 (ground arith)

  -- What a batch is, and the table after it, as the loop gives them.
  claim-read_rows :
      (limit : ℤ) (types : Option (List String)) (now : ℕ) (later : String → ℕ) (t : Table F)
      (tasks : List (TaskRecord F Payload))
      → (claim_next_batch parse_json limit types now later t).0 ≡ ok tasks
      → let ids = chosen (pos_part limit) types now t in
        let batch =
          read_rows parse_json later
            (claimed_rows ids now t)
            (update_where (is_claimed ids) (claim_row now) t) in
        (batch.0 ≡ tasks) × ((claim_next_batch parse_json limit types now later t).1 ≡ batch.1)
  unfolding claim_next_batch
  claim-read_rows limit types now later t tasks =
      let ids = chosen (pos_part limit) types now t in
      let batch =
        read_rows parse_json later (claimed_rows ids now t)
          (update_where (is_claimed ids) (claim_row now) t) in
      if_ind
        (λ (res : Result QueueError (List (TaskRecord F Payload)) × Table F).
          res.0 ≡ ok tasks → (batch.0 ≡ tasks) × (res.1 ≡ batch.1))
        (not (is_positive_safe limit)) (λ h e. cc) (λ h e. (ok_injective e, refl))

  -- The ids of a batch are the chosen ones, and no PENDING row has one of them afterwards.
  claim-ids :
      (limit : ℤ) (types : Option (List String)) (now : ℕ) (later : String → ℕ) (t : Table F)
      (tasks : List (TaskRecord F Payload))
      → (claim_next_batch parse_json limit types now later t).0 ≡ ok tasks
      → let ids = chosen (pos_part limit) types now t in
        All (λ u. any (λ i. i == u.row.id) ids ≡ true) tasks
        × All (Unclaimed ids) (claim_next_batch parse_json limit types now later t).1
  claim-ids limit types now later t tasks e =
      let ids = chosen (pos_part limit) types now t in
      let claimed = update_where (is_claimed ids) (claim_row now) t in
      let batch = claim-read_rows limit types now later t tasks e in
      let Chosen = λ (u : TaskRow F). any (λ i. i == u.id) ids ≡ true in
      (
        subst (All (λ (u : TaskRecord F Payload). Chosen u.row)) batch.0
            (read_rows-All Chosen later (claimed_rows ids now t) claimed (claimed-ids ids now t)).0,
        subst (All (Unclaimed ids)) (sym batch.1) (
            read_rows-Unclaimed ids later (claimed_rows ids now t) claimed
              (claim-Unclaimed ids now t)),
      )

  -- Where no PENDING row has one of the ids, a batch has none of them.
  claim-fresh :
      (old : List String) (limit : ℤ) (types : Option (List String)) (now : ℕ) (later : String → ℕ)
      (t : Table F) (tasks : List (TaskRecord F Payload))
      → All (Unclaimed old) t
      → (claim_next_batch parse_json limit types now later t).0 ≡ ok tasks
      → All (λ u. any (λ i. i == u.row.id) old ≡ false) tasks
  claim-fresh old limit types now later t tasks h e =
      let ids = chosen (pos_part limit) types now t in
      let Fresh = λ (u : TaskRow F). any (λ i. i == u.id) old ≡ false in
      subst (All (λ (u : TaskRecord F Payload). Fresh u.row))
        (claim-read_rows limit types now later t tasks e).0
        (read_rows-All Fresh later (claimed_rows ids now t)
          (update_where (is_claimed ids) (claim_row now) t) (claimed-Unclaimed old ids now t h)).0

  -- Where one claim follows another, the second hands out no task of the first: their ids all differ.
  pub claim-disjoint :
      (limit limit' : ℤ) (types types' : Option (List String)) (now now' : ℕ)
      (later later' : String → ℕ) (t : Table F) (tasks tasks' : List (TaskRecord F Payload))
      → (claim_next_batch parse_json limit types now later t).0 ≡ ok tasks
      → (claim_next_batch parse_json limit' types' now' later'
          (claim_next_batch parse_json limit types now later t).1).0
        ≡ ok tasks'
      → All (λ u. All (λ v. v.row.id ≢ u.row.id) tasks') tasks
  claim-disjoint limit limit' types types' now now' later later' t tasks tasks' e e' =
      let ids = chosen (pos_part limit) types now t in
      let first = claim-ids limit types now later t tasks e in
      let second = claim-fresh ids limit' types' now' later' _ tasks' first.1 e' in
      All-mono
        {Q = λ (u : TaskRecord F Payload).
          All (λ (v : TaskRecord F Payload). v.row.id ≢ u.row.id) tasks'}
        (λ (u : TaskRecord F Payload) (chosen_id : any (λ i. i == u.row.id) ids ≡ true).
          All-mono {Q = λ (v : TaskRecord F Payload). v.row.id ≢ u.row.id}
            (λ (v : TaskRecord F Payload) (fresh_id : any (λ i. i == v.row.id) ids ≡ false) same.
              let same_id = subst (λ j. any (λ i. i == j) ids ≡ false) same fresh_id in cc)
            tasks' second)
        tasks first.0

  -- Where ids are unique, a batch has at most `limit` tasks, and each of them is a row of the table that
  -- was PENDING, due and of an allowed type, now RUNNING with one attempt more.
  pub claim-is_due :
      (limit : ℤ) (types : Option (List String)) (now : ℕ) (later : String → ℕ) (t : Table F)
      (tasks : List (TaskRecord F Payload))
      → IsUnique t
      → (claim_next_batch parse_json limit types now later t).0 ≡ ok tasks
      → (length tasks ≤ pos_part limit)
        × All (λ u. Any (λ r. (is_due types now r ≡ true) × (u.row ≡ claim_row now r)) t) tasks
  claim-is_due limit types now later t tasks unique e =
      let ids = chosen (pos_part limit) types now t in
      let FromDue =
        λ (u : TaskRow F). Any (λ r. (is_due types now r ≡ true) × (u ≡ claim_row now r)) t in
      let read =
        read_rows-All FromDue later (claimed_rows ids now t)
          (update_where (is_claimed ids) (claim_row now) t)
          (claimed-due (pos_part limit) types now t unique) in
      subst
        (λ (us : List (TaskRecord F Payload)).
          (length us ≤ pos_part limit) × All (λ (u : TaskRecord F Payload). FromDue u.row) us)
        (claim-read_rows limit types now later t tasks e).0
        (omega (arith, read.1, length-claimed (pos_part limit) types now t unique), read.0)
