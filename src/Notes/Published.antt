-- ===== src/Notes/Published.antt =====
-- Every note of NotesService stands in the outbox, and every deleted one in the tombstones.
use tauri_boilerplate.Base.{
  ◌≡◌, refl, sym, subst, ◌∙◌, ◌⊎◌, inl, inr, Bool, true, false, ◌&&◌, ◌==◌, string_eq, eq_iff,
  String, Option, none, some, List, [], ◌∷◌, ◌++◌, ok, ok_injective, arith, All, All-mono,
  All-append, All-update, Any, here, there, Any-mono, Any-append, Any-last,
}
use mathlib.Core.List.{append_assoc}
use tauri_boilerplate.Groups.Context.{Context}
use tauri_boilerplate.Groups.Revoked.{find-found}
use tauri_boilerplate.Replication.Outbox.{OutboxRow}
use tauri_boilerplate.Replication.Tombstones.{TombstoneRow}
use tauri_boilerplate.Notes.Tables.{
  NoteRecord, NotesStore, is_null, is_live, find_note, update_note_row, soft_delete,
}
use tauri_boilerplate.Notes.Service.{
  Platform, Fresh, note_operation, new_note, create_note, changed_note, update_note, tombstone_of,
  delete_found,
}
use tauri_boilerplate.Notes.Effects.{create_note-ok, update_note-ok, delete_found-ok}

-- The row of the note's creation.
pub record IsCreation (n : NoteRecord) (r : OutboxRow) : Type 0 where
  pub entity : r.entity_id ≡ n.id
  pub feature : r.feature_id ≡ "notes"
  pub operation : r.operation ≡ "create"
  pub group : r.sync_group_id ≡ n.sync_group_id
  pub organisation : r.organisation_id ≡ n.organisation_id

-- The tombstone and the row of a note's deletion by the operation `op`.
pub record IsTombstone (n : NoteRecord) (op : String) (t : TombstoneRow) : Type 0 where
  pub operation_id : t.delete_operation_id ≡ op
  pub entity : t.entity_id ≡ n.id
  pub at : n.deleted_at ≡ some t.deleted_at

pub record IsDeletion (n : NoteRecord) (op : String) (r : OutboxRow) : Type 0 where
  pub envelope : r.envelope_id ≡ op
  pub entity : r.entity_id ≡ n.id
  pub operation : r.operation ≡ "delete"

-- The note is live, or its deletion is in the tombstones and in the outbox.
abbrev pub IsAccounted : List TombstoneRow → List OutboxRow → NoteRecord → Type 0
IsAccounted ts rs n =
    ((n.deleted_at ≡ none) × (n.delete_operation_id ≡ none))
    ⊎ ((op : String) × (n.delete_operation_id ≡ some op)
        × Any (IsTombstone n op) ts
        × Any (IsDeletion n op) rs)

abbrev pub IsPublishedNote : List TombstoneRow → List OutboxRow → NoteRecord → Type 0
IsPublishedNote ts rs n = Any (IsCreation n) rs × IsAccounted ts rs n

-- The rows that were pruned from the two tables so far.
pub record Removed : Type 0 where
  pub tombstones : List TombstoneRow
  pub outbox : List OutboxRow

-- Every note is published in the tables as they would be, had nothing been pruned.
abbrev pub IsPublished : Removed → NotesStore → Type 0
IsPublished g s =
    All (IsPublishedNote (g.tombstones ++ s.tombstones) (g.outbox ++ s.outbox)) s.notes

-- One more row behind those that were pruned and those that stand.
grow_outbox :
    (g rs : List OutboxRow) (r : OutboxRow) (ts : List TombstoneRow) (ns : List NoteRecord)
    → All (IsPublishedNote ts ((g ++ rs) ++ r ∷ [])) ns
    → All (IsPublishedNote ts (g ++ (rs ++ r ∷ []))) ns
grow_outbox g rs r ts ns h =
    subst (λ (x : List OutboxRow). All (IsPublishedNote ts x) ns) (append_assoc g rs (r ∷ [])) h

grow_tombstones :
    (g ts : List TombstoneRow) (t : TombstoneRow) (rs : List OutboxRow) (ns : List NoteRecord)
    → All (IsPublishedNote ((g ++ ts) ++ t ∷ []) rs) ns
    → All (IsPublishedNote (g ++ (ts ++ t ∷ [])) rs) ns
grow_tombstones g ts t rs ns h =
    subst (λ (x : List TombstoneRow). All (IsPublishedNote x rs) ns) (append_assoc g ts (t ∷ [])) h

false-true : Path Bool false true → ⊥
false-true h = cc

-- More rows take nothing away.
more-IsPublishedNote :
    (n : NoteRecord) (ts us : List TombstoneRow) (rs : List OutboxRow) (r : OutboxRow)
    → IsPublishedNote ts rs n
    → IsPublishedNote (ts ++ us) (rs ++ r ∷ []) n
more-IsPublishedNote n ts us rs r (made, inl live) = (Any-append (IsCreation n) rs _ made, inl live)
more-IsPublishedNote n ts us rs r (made, inr (op, same, tomb, row)) = (
  Any-append (IsCreation n) rs _ made,
  inr (op, same, Any-append (IsTombstone n op) ts us tomb, Any-append (IsDeletion n op) rs _ row),
)

row-IsPublishedNote :
    (n : NoteRecord) (ts : List TombstoneRow) (rs : List OutboxRow) (r : OutboxRow)
    → IsPublishedNote ts rs n
    → IsPublishedNote ts (rs ++ r ∷ []) n
row-IsPublishedNote n ts rs r (made, inl live) = (Any-append (IsCreation n) rs _ made, inl live)
row-IsPublishedNote n ts rs r (made, inr (op, same, tomb, row)) = (
  Any-append (IsCreation n) rs _ made,
  inr (op, same, tomb, Any-append (IsDeletion n op) rs _ row),
)

IsCreation-same :
    (n m : NoteRecord) (r : OutboxRow)
    → m.id ≡ n.id
    → m.organisation_id ≡ n.organisation_id
    → m.sync_group_id ≡ n.sync_group_id
    → IsCreation n r
    → IsCreation m r
IsCreation-same n m r i org group p = record {
  entity = p.entity ∙ sym i;
  feature = p.feature;
  operation = p.operation;
  group = p.group ∙ sym group;
  organisation = p.organisation ∙ sym org;
}

-- A live note under another title, content and time is still published.
renamed-IsPublishedNote :
    (n m : NoteRecord) (ts : List TombstoneRow) (rs : List OutboxRow)
    → m.id ≡ n.id
    → m.organisation_id ≡ n.organisation_id
    → m.sync_group_id ≡ n.sync_group_id
    → (m.deleted_at ≡ none) × (m.delete_operation_id ≡ none)
    → IsPublishedNote ts rs n
    → IsPublishedNote ts rs m
renamed-IsPublishedNote n m ts rs i org group live (made, rest) =
    (Any-mono (λ r p. IsCreation-same n m r i org group p) rs made, inl live)

-- A live note of a published table has no delete operation.
live-no_operation :
    (n : NoteRecord) (ts : List TombstoneRow) (rs : List OutboxRow)
    → is_live n ≡ true
    → IsAccounted ts rs n
    → (n.deleted_at ≡ none) × (n.delete_operation_id ≡ none)
live-no_operation n ts rs h (inl live) = live
live-no_operation n ts rs h (inr (op, same, tomb, row)) = absurd (gone ts tomb)
  where
    gone : (us : List TombstoneRow) → Any (IsTombstone n op) us → ⊥
    gone [] t = elim t [ ]
    gone (u ∷ us) (here p) = absurd (false-true (subst (λ d. is_null d ≡ true) p.at h))
    gone (u ∷ us) (there t) = gone us t

module _ {Scope Leaf : Type 0} (P : Platform Scope Leaf) where
  pub create_note-IsPublished :
      (ctx : Context) (title content group : String) (f : Fresh) (g : Removed) (s s' : NotesStore)
      → create_note P ctx title content group f s ≡ ok s'
      → IsPublished g s
      → IsPublished g s'
  unfolding note_operation
  create_note-IsPublished ctx title content group f g s s' h k =
      let (r, row, e) = create_note-ok P ctx title content group f s s' h in
      let n = new_note P ctx title content group f in
      let ts = g.tombstones ++ s.tombstones in
      let rs = g.outbox ++ s.outbox in
      subst (IsPublished g) (sym e) (
        grow_outbox g.outbox s.outbox r ts (s.notes ++ n ∷ []) (
          All-append (IsPublishedNote ts (rs ++ r ∷ [])) s.notes (n ∷ [])
            (All-mono (λ m p. row-IsPublishedNote m ts rs r p) s.notes k)
            (
              (
                Any-last (IsCreation n) rs r (record {
                  entity = row.entity_id;
                  feature = row.feature_id;
                  operation = row.operation;
                  group = row.sync_group_id;
                  organisation = row.organisation_id;
                }),
                inl (refl, refl),
              ),
              tt,
            )))

  pub update_note-IsPublished :
      (ctx : Context) (i : String) (title content : Option String) (f : Fresh) (g : Removed)
      (s s' : NotesStore)
      → update_note P ctx i title content f s ≡ ok s'
      → IsPublished g s
      → IsPublished g s'
  unfolding update_note_row find_note
  update_note-IsPublished ctx i title content f g s s' h k =
      let (n, r, found, e) = update_note-ok P ctx i title content f s s' h in
      let ts = g.tombstones ++ s.tombstones in
      let rs = g.outbox ++ s.outbox in
      let grown = All-mono (λ m p. row-IsPublishedNote m ts rs r p) s.notes k in
      let (hit, p) = find-found (IsPublishedNote ts (rs ++ r ∷ [])) _ s.notes n found grown in
      let live = live-no_operation n ts (rs ++ r ∷ []) (ground arith) p.1 in
      let same = (eq_iff n.id i).0 (ground arith) in
      subst (IsPublished g) (sym e) (
        grow_outbox g.outbox s.outbox r ts _ (
          All-update (λ (m : NoteRecord). m.id == i) _
            (λ m is q.
              renamed-IsPublishedNote n (record (changed_note P n title content f) { id = m.id }) ts
                (rs ++ r ∷ []) ((eq_iff m.id i).0 is ∙ sym same) refl refl live p)
            (λ m other q. q) s.notes grown))

  pub delete_found-IsPublished :
      (ctx : Context) (i : String) (f : Fresh) (g : Removed) (s s' : NotesStore)
      (o : Option NoteRecord)
      → delete_found P ctx i f s o ≡ ok s'
      → IsPublished g s
      → IsPublished g s'
  unfolding delete_found soft_delete note_operation
  delete_found-IsPublished ctx i f g s s' none h k = subst (IsPublished g) (ok_injective h) k
  delete_found-IsPublished ctx i f g s s' (some n) h k =
      let (r, row, e) = delete_found-ok P ctx i f s s' n h in
      let t = tombstone_of P ctx n i f in
      let ts = g.tombstones ++ s.tombstones in
      let rs = g.outbox ++ s.outbox in
      let grown = All-mono (λ m p. more-IsPublishedNote m ts (t ∷ []) rs r p) s.notes k in
      subst (IsPublished g) (sym e) (
        grow_tombstones g.tombstones s.tombstones t _ _ (
          grow_outbox g.outbox s.outbox r _ _ (
            All-update (λ (m : NoteRecord). m.id == i && is_live m) _
              (λ m hit (made, rest).
                let same = (eq_iff m.id i).0 (ground arith) in
                (
                  Any-mono (λ x c. IsCreation-same m _ x refl refl refl c) (rs ++ r ∷ []) made,
                  inr (
                    f.op_id,
                    refl,
                    Any-last (IsTombstone _ f.op_id) ts t
                        (record { operation_id = refl; entity = sym same; at = refl }),
                    Any-last (IsDeletion _ f.op_id) rs r (record {
                      envelope = row.envelope_id;
                      entity = row.entity_id ∙ sym same;
                      operation = row.operation;
                    }),
                  ),
                ))
              (λ m other q. q) s.notes grown)))
