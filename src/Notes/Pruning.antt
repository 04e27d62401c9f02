-- ===== src/Notes/Pruning.antt =====
-- SyncOutboxPruner and ReplicatedTombstonePruner of packages/maintenance/src/handlers beside NotesService, and the
-- marks on what was sent: no row of a note goes before it was sent.
use tauri_boilerplate.Base.{
  ℕ, ◌≡◌, refl, ◌⊎◌, inl, inr, Bool, true, false, not, ◌&&◌, ◌==◌, string_eq, String, some, List,
  [], ◌∷◌, ◌++◌, filter, arith, All, All-mono, All-append, Any, here, there, Any-append,
  Any-update_where, update_where, Bool-cases, subst, sym,
}
use mathlib.Core.List.{append_assoc}
use tauri_boilerplate.Replication.Outbox.{
  OutboxStatus, pending, sent, failed, OutboxRow, is_open, sent_row, mark_sent,
}
use tauri_boilerplate.Replication.Tombstones.{TombstoneRow, is_unsent, mark_replicated}
use tauri_boilerplate.Notes.Tables.{NoteRecord, NotesStore}
use tauri_boilerplate.Notes.Published.{
  IsCreation, IsTombstone, IsDeletion, IsPublishedNote, Removed, IsPublished,
}

abbrev pub is_sent : OutboxStatus → Bool
is_sent pending = false
is_sent sent = true
is_sent failed = false

-- The rows that a pruner deletes in one statement: of those that it may delete the ones that are old enough and
-- within its limit, which `chosen` says.
abbrev pub is_pruned_row : (OutboxRow → Bool) → OutboxRow → Bool
is_pruned_row chosen r = is_sent r.status && chosen r

abbrev pub is_pruned_tombstone : (TombstoneRow → Bool) → TombstoneRow → Bool
is_pruned_tombstone chosen t = not (is_unsent t) && chosen t

-- SyncOutboxPruner: the table, and what was deleted so far
unfoldable pub prune_outbox : (OutboxRow → Bool) → NotesStore × Removed → NotesStore × Removed
prune_outbox chosen (s, g) = (
  record s { outbox = filter (λ r. not (is_pruned_row chosen r)) s.outbox },
  record g { outbox = g.outbox ++ filter (is_pruned_row chosen) s.outbox },
)

-- ReplicatedTombstonePruner
unfoldable pub prune_tombstones :
    (TombstoneRow → Bool) → NotesStore × Removed → NotesStore × Removed
prune_tombstones chosen (s, g) = (
  record s { tombstones = filter (λ t. not (is_pruned_tombstone chosen t)) s.tombstones },
  record g { tombstones = g.tombstones ++ filter (is_pruned_tombstone chosen) s.tombstones },
)

-- Only rows that were sent, and tombstones that were replicated, are gone.
pub record WereSent (g : Removed) : Type 0 where
  pub rows : All (λ (r : OutboxRow). r.status ≡ sent) g.outbox
  pub marked : All (λ (t : TombstoneRow). is_unsent t ≡ false) g.tombstones

module _ {A : Type 0} (P : A → Type 0) where
  Any-behind : (g xs ys : List A) → (Any P xs → Any P ys) → Any P (g ++ xs) → Any P (g ++ ys)
  Any-behind [] xs ys f h = f h
  Any-behind (x ∷ g) xs ys f (here p) = here p
  Any-behind (x ∷ g) xs ys f (there h) = there (Any-behind g xs ys f h)

  Any-insert : (xs ys : List A) (x : A) → P x → Any P (xs ++ x ∷ ys)
  Any-insert [] ys x p = here p
  Any-insert (y ∷ xs) ys x p = there (Any-insert xs ys x p)

  Any-second : (xs ys : List A) → Any P ys → Any P (xs ++ ys)
  Any-second [] ys h = h
  Any-second (x ∷ xs) ys h = there (Any-second xs ys h)

  Any-kept : (p : A → Bool) (x : A) (xs : List A) → Any P (filter p xs) → Any P (filter p (x ∷ xs))
  Any-kept p x xs h = elim (Bool-cases (p x)) [ inl e ↦ rw e (there h) | inr e ↦ rw e h ]

  Any-filter :
      (p : A → Bool) (xs : List A)
      → Any P xs
      → Any P (filter p xs) ⊎ Any P (filter (λ x. not (p x)) xs)
  Any-filter p [] h = elim h [ ]
  Any-filter p (x ∷ xs) (here q) = elim (Bool-cases (p x)) [
    | inl e ↦ inl (rw e (here q))
    | inr e ↦ inr (rw e (here q))
  ]
  Any-filter p (x ∷ xs) (there h) = elim (Any-filter p xs h) [
    | inl left ↦ inl (Any-kept p x xs left)
    | inr right ↦ inr (Any-kept (λ y. not (p y)) x xs right)
  ]

  Any-split :
      (p : A → Bool) (xs : List A) → Any P xs → Any P (filter p xs ++ filter (λ x. not (p x)) xs)
  Any-split p xs h = elim (Any-filter p xs h) [
    | inl left ↦ Any-append P (filter p xs) _ left
    | inr right ↦ Any-second (filter p xs) _ right
  ]

  Any-pruned :
      (p : A → Bool) (g xs : List A)
      → Any P (g ++ xs)
      → Any P ((g ++ filter p xs) ++ filter (λ x. not (p x)) xs)
  Any-pruned p g xs h =
      subst (Any P) (sym (append_assoc g (filter p xs) _)) (Any-behind g xs _ (Any-split p xs) h)

All-filter_of :
    {A : Type 0} (P : A → Type 0) (p : A → Bool)
    → ((x : A) → p x ≡ true → P x)
    → (xs : List A) → All P (filter p xs)
All-filter_of P p f [] = tt
All-filter_of P p f (x ∷ xs) = elim (Bool-cases (p x)) [
  | inl e ↦ rw e (f x e, All-filter_of P p f xs)
  | inr e ↦ rw e (All-filter_of P p f xs)
]

-- Where the rows of a note are still to be found, it is still published.
found-IsPublishedNote :
    (n : NoteRecord) (ts us : List TombstoneRow) (rs qs : List OutboxRow)
    → (Any (IsCreation n) rs → Any (IsCreation n) qs)
    → ((op : String) → Any (IsTombstone n op) ts → Any (IsTombstone n op) us)
    → ((op : String) → Any (IsDeletion n op) rs → Any (IsDeletion n op) qs)
    → IsPublishedNote ts rs n
    → IsPublishedNote us qs n
found-IsPublishedNote n ts us rs qs c t d (made, inl live) = (c made, inl live)
found-IsPublishedNote n ts us rs qs c t d (made, inr (op, same, tomb, row)) =
    (c made, inr (op, same, t op tomb, d op row))

pub mark_sent-IsPublished :
    (e : String) (now : ℕ) (s : NotesStore) (g : Removed)
    → IsPublished g s
    → IsPublished g (record s { outbox = mark_sent e now s.outbox })
unfolding mark_sent
mark_sent-IsPublished e now s g k =
    All-mono
      (λ n p.
        found-IsPublishedNote n _ _ _ _
          (keep (IsCreation n) (λ r c. record {
            entity = c.entity;
            feature = c.feature;
            operation = c.operation;
            group = c.group;
            organisation = c.organisation;
          }))
          (λ op h. h)
          (λ op.
            keep (IsDeletion n op)
              (λ r d. record { envelope = d.envelope; entity = d.entity; operation = d.operation }))
          p)
      s.notes k
  where
    keep :
        (P : OutboxRow → Type 0)
        → ((r : OutboxRow) → P r → P (sent_row now r))
        → Any P (g.outbox ++ s.outbox)
        → Any P (g.outbox ++ update_where (is_open e) (sent_row now) s.outbox)
    keep P f h =
        Any-behind P g.outbox s.outbox _
          (λ i. Any-update_where P (is_open e) (sent_row now) f s.outbox i) h

pub mark_replicated-IsPublished :
    (op now : String) (s : NotesStore) (g : Removed)
    → IsPublished g s
    → IsPublished g (record s { tombstones = mark_replicated op now s.tombstones })
unfolding mark_replicated
mark_replicated-IsPublished o now s g k =
    All-mono
      (λ n p.
        found-IsPublishedNote n _ _ _ _ (λ h. h)
          (λ op h.
            Any-behind (IsTombstone n op) g.tombstones s.tombstones _
              (λ i.
                Any-update_where (IsTombstone n op)
                  (λ (t : TombstoneRow). t.delete_operation_id == o)
                  (λ (t : TombstoneRow). record t { replicated_at = some now })
                  (λ t d. record { operation_id = d.operation_id; entity = d.entity; at = d.at })
                  s.tombstones i)
              h)
          (λ op h. h) p)
      s.notes k

pub prune_outbox-IsPublished :
    (chosen : OutboxRow → Bool) (s : NotesStore) (g : Removed)
    → IsPublished g s
    → let r = prune_outbox chosen (s, g) in IsPublished r.1 r.0
unfolding prune_outbox
prune_outbox-IsPublished chosen s g k =
    All-mono
      (λ n p.
        found-IsPublishedNote n _ _ _ _
          (Any-pruned (IsCreation n) (is_pruned_row chosen) g.outbox s.outbox) (λ op h. h)
          (λ op. Any-pruned (IsDeletion n op) (is_pruned_row chosen) g.outbox s.outbox) p)
      s.notes k

pub prune_tombstones-IsPublished :
    (chosen : TombstoneRow → Bool) (s : NotesStore) (g : Removed)
    → IsPublished g s
    → let r = prune_tombstones chosen (s, g) in IsPublished r.1 r.0
unfolding prune_tombstones
prune_tombstones-IsPublished chosen s g k =
    All-mono
      (λ n p.
        found-IsPublishedNote n _ _ _ _ (λ h. h)
          (λ op.
            Any-pruned (IsTombstone n op) (is_pruned_tombstone chosen) g.tombstones s.tombstones)
          (λ op h. h) p)
      s.notes k

sent_status : (o : OutboxStatus) → is_sent o ≡ true → o ≡ sent
sent_status pending h = cc
sent_status sent h = refl
sent_status failed h = cc

pub prune_outbox-WereSent :
    (chosen : OutboxRow → Bool) (s : NotesStore) (g : Removed)
    → WereSent g
    → WereSent (prune_outbox chosen (s, g)).1
unfolding prune_outbox
prune_outbox-WereSent chosen s g w = record {
  rows =
      All-append (λ (r : OutboxRow). r.status ≡ sent) g.outbox _ w.rows
        (All-filter_of (λ (r : OutboxRow). r.status ≡ sent) (is_pruned_row chosen)
          (λ r h. sent_status r.status (ground arith)) s.outbox);
  marked = w.marked;
}

pub prune_tombstones-WereSent :
    (chosen : TombstoneRow → Bool) (s : NotesStore) (g : Removed)
    → WereSent g
    → WereSent (prune_tombstones chosen (s, g)).1
unfolding prune_tombstones
prune_tombstones-WereSent chosen s g w = record {
  rows = w.rows;
  marked =
      All-append (λ (t : TombstoneRow). is_unsent t ≡ false) g.tombstones _ w.marked
        (All-filter_of (λ (t : TombstoneRow). is_unsent t ≡ false) (is_pruned_tombstone chosen)
          (λ t h. ground arith) s.tombstones);
}
