-- ===== src/Notes/Effects.antt =====
-- What the operations of NotesService change where they return.
use tauri_boilerplate.Base.{
  ℕ, ◌≡◌, refl, sym, ap, ◌∙◌, true, ◌&&◌, string_eq, String, Option, some, List, [], ◌∷◌, ◌++◌,
  Result, ok, err, arith, >>=-eq-ok, throw_if-ok, or_throw-ok, ok_injective, is_blank,
}
use tauri_boilerplate.Groups.Context.{Context, extract_context_subject, acting_user}
use tauri_boilerplate.Groups.Access.{require_active_membership}
use tauri_boilerplate.Envelope.Types.{
  operation_name, create, update, delete, SyncOperation, SyncEnvelope,
}
use tauri_boilerplate.Envelope.Builder.{EnvelopeError, build, validate_envelope}
use tauri_boilerplate.Envelope.Signing.{build-verify}
use tauri_boilerplate.Replication.Outbox.{
  OutboxRow, OutboxError, enqueue, new_row, as_outbox, key_taken,
}
use tauri_boilerplate.Replication.Tombstones.{TombstoneRow, record_tombstone}
use tauri_boilerplate.Notes.Tables.{
  NoteRecord, NotesStore, find_note, insert_note, update_note_row, soft_delete,
}
use tauri_boilerplate.Notes.Service.{
  Platform, Fresh, require_permission, note_value, note_operation, enqueue_operation, new_note,
  create_note, changed_note, update_note, tombstone_of, deletion_value, delete_found, or_group,
  or_envelope, or_outbox, is_absent, is_blank_change, title_required, nothing_to_update,
}

-- The row of an operation.
pub record IsRowOf {Leaf : Type 0} (op : SyncOperation Leaf) (r : OutboxRow) : Type 0 where
  pub envelope_id : r.envelope_id ≡ op.operation_id
  pub organisation_id : r.organisation_id ≡ op.organisation_id
  pub sync_group_id : r.sync_group_id ≡ op.sync_group_id
  pub feature_id : r.feature_id ≡ op.feature_id
  pub entity_id : r.entity_id ≡ op.entity_id
  pub operation : r.operation ≡ operation_name op.operation

module _ {Scope Leaf : Type 0} (P : Platform Scope Leaf) where
  or_envelope-ok :
      (r : Result EnvelopeError (SyncEnvelope Leaf)) (e : SyncEnvelope Leaf)
      → or_envelope r ≡ ok e
      → r ≡ ok e
  or_envelope-ok (ok x) e h = cc
  or_envelope-ok (err x) e h = cc

  or_outbox-ok :
      (r : Result OutboxError (OutboxRow × List OutboxRow)) (p : OutboxRow × List OutboxRow)
      → or_outbox r ≡ ok p
      → r ≡ ok p
  or_outbox-ok (ok x) e h = cc
  or_outbox-ok (err x) e h = cc

  enqueue-ok :
      (e : SyncEnvelope Leaf) (id : String) (now : ℕ) (t : List OutboxRow)
      (p : OutboxRow × List OutboxRow)
      → enqueue P.literals P.stringify P.encode P.iso_date P.payload_json P.read_envelope e id now t
        ≡ ok p
      → p.1
        ≡ t
          ++ new_row P.literals P.stringify P.encode P.iso_date P.payload_json P.read_envelope e id
              now
            ∷ []
  unfolding enqueue
  enqueue-ok e id now t p h =
      let (u, valid, k) =
        >>=-eq-ok (as_outbox (validate_envelope P.literals P.stringify P.encode P.iso_date e)) _
          h in
      let (free, last) = throw_if-ok _ key_taken _ k in
      ap (λ (q : OutboxRow × List OutboxRow). q.1) (sym (ok_injective last))

  -- An operation that is enqueued adds its row and changes nothing else.
  pub enqueue_operation-ok :
      (op : SyncOperation Leaf) (f : Fresh) (s s' : NotesStore)
      → enqueue_operation P op f s ≡ ok s'
      → (r : OutboxRow) × IsRowOf op r × (s' ≡ record s { outbox = s.outbox ++ r ∷ [] })
  unfolding enqueue_operation
  enqueue_operation-ok op f s s' h =
      let built =
        build P.literals P.stringify P.encode P.iso_date op P.public_key P.sign f.signed_at in
      let (e, made, k) = >>=-eq-ok (or_envelope built) _ h in
      let (same, same_id, valid, verified) =
        build-verify P.literals P.stringify P.encode P.iso_date op P.public_key f.signed_at P.sign
          (λ key bytes signature. ok true) e (or_envelope-ok built e made)
          (λ bytes signature c d. refl) in
      let (rows, stored, last) = >>=-eq-ok (or_outbox _) _ k in
      (
        new_row P.literals P.stringify P.encode P.iso_date P.payload_json P.read_envelope e
            f.outbox_id f.outbox_now,
        record {
          envelope_id = same_id;
          organisation_id = ap (λ (o : SyncOperation Leaf). o.organisation_id) same;
          sync_group_id = ap (λ (o : SyncOperation Leaf). o.sync_group_id) same;
          feature_id = ap (λ (o : SyncOperation Leaf). o.feature_id) same;
          entity_id = ap (λ (o : SyncOperation Leaf). o.entity_id) same;
          operation = ap (λ (o : SyncOperation Leaf). operation_name o.operation) same;
        },
        sym (ok_injective last)
            ∙ ap (λ t. record s { outbox = t })
                (enqueue-ok e f.outbox_id f.outbox_now s.outbox rows (or_outbox-ok _ rows stored)),
      )

  insert_note-ok :
      (n : NoteRecord) (ns out : List NoteRecord) → insert_note n ns ≡ some out → out ≡ ns ++ n ∷ []
  unfolding insert_note
  insert_note-ok n ns out h = ground arith

  record_tombstone-ok :
      (r : TombstoneRow) (t out : List TombstoneRow)
      → record_tombstone r t ≡ some out
      → out ≡ t ++ r ∷ []
  unfolding record_tombstone
  record_tombstone-ok r t out h = ground arith

  pub create_note-ok :
      (ctx : Context) (title content group : String) (f : Fresh) (s s' : NotesStore)
      → create_note P ctx title content group f s ≡ ok s'
      → (r : OutboxRow) × IsRowOf
          (note_operation P create
            (note_value P (new_note P ctx title content group f))
            group
            f.note_id
            ctx
            f)
          r
        × (s' ≡ record s {
          notes = s.notes ++ new_note P ctx title content group f ∷ [];
          outbox = s.outbox ++ r ∷ [];
        })
  unfolding create_note
  create_note-ok ctx title content group f s s' h =
      let (filled, h₁) = throw_if-ok (is_blank title) title_required _ h in
      let (u, permitted, h₂) =
        >>=-eq-ok (require_permission P ctx "notes.create" s.platform) _ h₁ in
      let (v, member, h₃) =
        >>=-eq-ok (or_group (require_active_membership ctx group s.platform)) _ h₂ in
      let (notes, stored, h₄) =
        or_throw-ok (insert_note (new_note P ctx title content group f) s.notes) _ _ h₃ in
      let (r, row, e) = enqueue_operation-ok _ f _ s' h₄ in
      (
        r,
        row,
        e
            ∙ ap (λ ns. record s { notes = ns; outbox = s.outbox ++ r ∷ [] })
                (insert_note-ok _ s.notes notes stored),
      )

  pub update_note-ok :
      (ctx : Context) (i : String) (title content : Option String) (f : Fresh) (s s' : NotesStore)
      → update_note P ctx i title content f s ≡ ok s'
      → (n : NoteRecord) × (r : OutboxRow) × (find_note i
            (extract_context_subject ctx).organisation_id
            s.notes
          ≡ some n)
        × (s' ≡ record s {
          notes = update_note_row i (changed_note P n title content f) s.notes;
          outbox = s.outbox ++ r ∷ [];
        })
  unfolding update_note
  update_note-ok ctx i title content f s s' h =
      let (given, h₁) = throw_if-ok (is_absent title && is_absent content) nothing_to_update _ h in
      let (filled, h₂) = throw_if-ok (is_blank_change title) title_required _ h₁ in
      let (u, permitted, h₃) =
        >>=-eq-ok (require_permission P ctx "notes.update" s.platform) _ h₂ in
      let (n, found, h₄) =
        or_throw-ok (find_note i (extract_context_subject ctx).organisation_id s.notes) _ _ h₃ in
      let (v, member, h₅) =
        >>=-eq-ok (or_group (require_active_membership ctx n.sync_group_id s.platform)) _ h₄ in
      let op =
        note_operation P update (note_value P (changed_note P n title content f)) n.sync_group_id i
          ctx f in
      let (r, row, e) = enqueue_operation-ok op f _ s' h₅ in (n, r, found, e)

  pub delete_found-ok :
      (ctx : Context) (i : String) (f : Fresh) (s s' : NotesStore) (n : NoteRecord)
      → delete_found P ctx i f s (some n) ≡ ok s'
      → (r : OutboxRow) × IsRowOf
          (note_operation P delete (deletion_value P i f.now) n.sync_group_id i ctx f)
          r
        × (s' ≡ record s {
          notes = soft_delete i (acting_user ctx) f.op_id f.now s.notes;
          tombstones = s.tombstones ++ tombstone_of P ctx n i f ∷ [];
          outbox = s.outbox ++ r ∷ [];
        })
  unfolding delete_found
  delete_found-ok ctx i f s s' n h =
      let (v, member, h₁) =
        >>=-eq-ok (or_group (require_active_membership ctx n.sync_group_id s.platform)) _ h in
      let (tombstones, stored, h₂) =
        or_throw-ok (record_tombstone (tombstone_of P ctx n i f) s.tombstones) _ _ h₁ in
      let (r, row, e) = enqueue_operation-ok _ f _ s' h₂ in
      (
        r,
        row,
        e
            ∙ ap
                (λ ts. record s {
                  notes = soft_delete i (acting_user ctx) f.op_id f.now s.notes;
                  tombstones = ts;
                  outbox = s.outbox ++ r ∷ [];
                })
                (record_tombstone-ok _ s.tombstones tombstones stored),
      )
