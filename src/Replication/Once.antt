-- ===== src/Replication/Once.antt =====
-- InboxService hands each envelope to the domain once.
use tauri_boilerplate.Base.{
  ℕ, ◌+◌, ◌≤◌, ◌≡◌, refl, ◌∙◌, subst, Bool, true, false, ◌&&◌, ◌==◌, ==_refl, ==_iff, string_eq,
  String, List, [], ◌∷◌, ◌++◌, any, filter, sort_by, arith, count, not, update_where, Option-cases,
  count-append, count-eq-zero, count-update_where, count-sort_by, All, All-sort_by, All-filter,
  All-of, Bool-cases, inl, inr,
}
use tauri_boilerplate.Replication.Inbox.{
  InboxRow, is_ready, has_envelope, Outcome, applies, conflicts, fails, finish_row, Attempt,
  result_of, apply_rows, apply_pending,
}

-- A row that stops being ready keeps everything that tells envelopes apart.
finish_row-not_ready :
    (o : Outcome) (now : ℕ) (r : InboxRow) → is_ready (finish_row o now r) ≡ false
finish_row-not_ready applies now r = refl
finish_row-not_ready conflicts now r = refl
finish_row-not_ready fails now r = refl

finish_row-envelope :
    (e : String) (o : Outcome) (now : ℕ) (r : InboxRow)
    → has_envelope e (finish_row o now r) ≡ has_envelope e r
finish_row-envelope e applies now r = refl
finish_row-envelope e conflicts now r = refl
finish_row-envelope e fails now r = refl

-- Ready, and of the envelope.
abbrev pub ready_of : String → InboxRow → Bool
ready_of e r = is_ready r && has_envelope e r

count-filter_ready :
    (p : InboxRow → Bool) (t : List InboxRow)
    → count p (filter is_ready t) ≡ count (λ r. is_ready r && p r) t
count-filter_ready p [] = refl
count-filter_ready p (r ∷ t) = ground (arith, count-filter_ready p t)

-- The ready rows of the table are among the rows that are still to be handed over.
abbrev AreListed : List InboxRow → List InboxRow → Type 0
AreListed rs t = (p : InboxRow → Bool) → count (λ r. is_ready r && p r) t ≤ count p rs

-- A row that is marked takes every row of its id from the ready ones.
count-marked :
    (p : InboxRow → Bool) (i : String) (o : Outcome) (now : ℕ) (t : List InboxRow)
    → count
        (λ r. is_ready r && p r)
        (update_where (λ (s : InboxRow). s.id == i) (finish_row o now) t)
      ≡ count (λ r. is_ready r && (p r && not (r.id == i))) t
count-marked p i o now [] = refl
count-marked p i o now (r ∷ t) = elim (Bool-cases (r.id == i)) [
  | inl same ↦ ground (arith, same, count-marked p i o now t, finish_row-not_ready o now r)
  | inr apart ↦ ground (arith, apart, count-marked p i o now t)
]

count-implied :
    (p q : InboxRow → Bool) (rs : List InboxRow)
    → ((r : InboxRow) → q r ≡ true → p r ≡ true)
    → count q rs ≤ count p rs
count-implied p q [] h = omega arith
count-implied p q (r ∷ rs) h = ground (arith, h r, count-implied p q rs h)

AreListed-marked :
    (x : InboxRow) (rs t : List InboxRow) (o : Outcome) (now : ℕ)
    → AreListed (x ∷ rs) t
    → AreListed rs (update_where (λ (s : InboxRow). s.id == x.id) (finish_row o now) t)
AreListed-marked x rs t o now h p =
    let left = λ (r : InboxRow). p r && not (r.id == x.id) in
    let marked = count-marked p x.id o now t in
    let bound = h left in
    let fewer = count-implied p left rs (λ r k. ground arith) in
    let own : left x ≡ false = ground (arith, ==_refl x.id) in
    ground (arith, marked, bound, fewer, own)

-- One record more than there were ready rows, if the loop throws.
abbrev pub one_if : Bool → ℕ
one_if true = 1
one_if false = 0

apply_rows-count :
    (e : String) (attempt : InboxRow → Attempt) (now : String → ℕ) (rs t : List InboxRow)
    → AreListed rs t
    → let a = apply_rows attempt now rs t in
      count (has_envelope e) a.handed + count (ready_of e) a.table
      ≤ count (has_envelope e) rs + one_if a.throws
unfolding apply_rows
apply_rows-count e attempt now [] t h = omega (arith, h (has_envelope e))
apply_rows-count e attempt now (x ∷ rs) t h = elim (Option-cases (result_of (attempt x))) [
  | inl lost ↦ rw (lost, apply_rows) (ground (arith, h (has_envelope e)))
  | inr (o, marked) ↦
      let rest =
        apply_rows-count e attempt now rs
          (update_where (λ (s : InboxRow). s.id == x.id) (finish_row o (now x.id)) t)
          (AreListed-marked x rs t o (now x.id) h) in
      rw (marked, apply_rows) (ground (arith, rest))
]

apply_rows-rows :
    (e : String) (attempt : InboxRow → Attempt) (now : String → ℕ) (rs t : List InboxRow)
    → count (has_envelope e) (apply_rows attempt now rs t).table ≡ count (has_envelope e) t
unfolding apply_rows
apply_rows-rows e attempt now [] t = refl
apply_rows-rows e attempt now (x ∷ rs) t = elim (Option-cases (result_of (attempt x))) [
  | inl lost ↦ rw (lost, apply_rows) refl
  | inr (o, marked) ↦
      rw (marked, apply_rows)
        (apply_rows-rows e attempt now rs _
          ∙ count-update_where (has_envelope e) (λ (s : InboxRow). s.id == x.id)
              (finish_row o (now x.id)) (λ r. finish_row-envelope e o (now x.id) r) t)
]

apply_rows-All :
    (P : InboxRow → Type 0) (attempt : InboxRow → Attempt) (now : String → ℕ) (rs t : List InboxRow)
    → All P rs
    → All P (apply_rows attempt now rs t).handed
unfolding apply_rows
apply_rows-All P attempt now [] t h = tt
apply_rows-All P attempt now (x ∷ rs) t (p, h) = elim (Option-cases (result_of (attempt x))) [
  | inl lost ↦ rw (lost, apply_rows) (p, tt)
  | inr (o, marked) ↦ rw (marked, apply_rows) (p, apply_rows-All P attempt now rs _ h)
]

pub count_ready-le :
    (e : String) (t : List InboxRow) → count (ready_of e) t ≤ count (has_envelope e) t
count_ready-le e [] = omega arith
count_ready-le e (r ∷ t) = ground (arith, count_ready-le e t)

-- What was handed over of an envelope and what may still be is no more than its row, but for the runs that
-- threw.
pub record IsOnce (e : String) (t handed : List InboxRow) (thrown : ℕ) : Type 0 where
  pub one_row : count (has_envelope e) t ≤ 1
  pub in_row :
      count (has_envelope e) handed + count (ready_of e) t ≤ count (has_envelope e) t + thrown

pub apply-IsOnce :
    (e : String) (rank : String → ℕ) (attempt : InboxRow → Attempt) (now : String → ℕ)
    (t handed : List InboxRow) (thrown : ℕ)
    → IsOnce e t handed thrown
    → let a = apply_pending rank attempt now t in
      IsOnce e a.table (handed ++ a.handed) (thrown + one_if a.throws)
unfolding apply_pending
apply-IsOnce e rank attempt now t handed thrown h =
    let by_time = λ (r : InboxRow). rank r.logical_timestamp in
    let rows = sort_by by_time (filter is_ready t) in
    let all = λ (p : InboxRow → Bool).
      count-sort_by p by_time (filter is_ready t) ∙ count-filter_ready p t in
    let counted = apply_rows-count e attempt now rows t (λ p. omega (arith, all p)) in
    record {
      one_row = omega (arith, h.one_row, apply_rows-rows e attempt now rows t);
      in_row = omega (
        arith,
        h.in_row,
        counted,
        all (has_envelope e),
        apply_rows-rows e attempt now rows t,
        count-append (has_envelope e) handed (apply_rows attempt now rows t).handed,
      );
    }

pub apply_pending-All_ready :
    (rank : String → ℕ) (attempt : InboxRow → Attempt) (now : String → ℕ) (t : List InboxRow)
    → All (λ (r : InboxRow). is_ready r ≡ true) (apply_pending rank attempt now t).handed
unfolding apply_pending
apply_pending-All_ready rank attempt now t =
    apply_rows-All (λ (r : InboxRow). is_ready r ≡ true) attempt now _ t
      (All-sort_by (λ (r : InboxRow). is_ready r ≡ true)
        (λ (r : InboxRow). rank r.logical_timestamp) _
        (All-filter (λ (r : InboxRow). is_ready r ≡ true) is_ready t
          (All-of (λ (r : InboxRow). is_ready r ≡ true → is_ready r ≡ true) (λ r h. h) t)))

pub insert-IsOnce :
    (e : String) (r : InboxRow) (t handed : List InboxRow) (thrown : ℕ)
    → any (has_envelope r.envelope_id) t ≡ false
    → IsOnce e t handed thrown
    → IsOnce e (t ++ r ∷ []) handed thrown
insert-IsOnce e r t handed thrown unused h = elim (Bool-cases (r.envelope_id == e)) [
  | inl same ↦
      let none : any (has_envelope e) t ≡ false =
        subst (λ k. any (has_envelope k) t ≡ false) ((==_iff r.envelope_id e).0 same) unused in
      let rows = count-eq-zero (has_envelope e) t none in
      let two = count-append (has_envelope e) t (r ∷ []) in
      let more = count-append (ready_of e) t (r ∷ []) in
      record { one_row = ground arith; in_row = ground (arith, h.in_row) }
  | inr apart ↦
      let two = count-append (has_envelope e) t (r ∷ []) in
      let more = count-append (ready_of e) t (r ∷ []) in
      record { one_row = ground (arith, h.one_row); in_row = ground (arith, h.in_row) }
]
