-- ===== src/Notes/Service.antt =====
-- NotesService of apps/minimal-consumer/src/notes/NotesService.ts. Each call runs in one transaction, whose
-- writes are gone where it throws. New ids and times are arguments (`Fresh`).
use Prim.Native.String.{◌++◌ as str_append}
use tauri_boilerplate.Base.{
  ℕ, Bool, true, false, ◌&&◌, string_eq, String, Option, none, some, List, Result, ok, err, ◌>>=◌,
  ◌>>◌, throw_if, or_throw, is_blank, truthy,
}
use tauri_boilerplate.Base.Int.{pos}
use tauri_boilerplate.Authorization.Engine.{
  Json, AuthorizationDeniedCode, require_trusted, require_for_subject,
}
use tauri_boilerplate.Groups.Tables.{Store}
use tauri_boilerplate.Groups.Context.{
  Context, operation, trusted, extract_context_subject, acting_user, GroupError,
}
use tauri_boilerplate.Groups.Access.{require_active_membership}
use tauri_boilerplate.Handshake.Validator.{units}
use tauri_boilerplate.Envelope.Json.{Value, object, close}
use tauri_boilerplate.Envelope.Types.{
  OperationType, create, update, delete, SyncOperation, SyncEnvelope, Literals, text_field,
  optional_field,
}
use tauri_boilerplate.Envelope.Builder.{EnvelopeError, build}
use tauri_boilerplate.Replication.Outbox.{OutboxRow, OutboxError, enqueue}
use tauri_boilerplate.Replication.Tombstones.{TombstoneRow, record_tombstone}
use tauri_boilerplate.Notes.Tables.{
  NoteRecord, NotesStore, find_note, find_by_sync_group, find_all_within_organisation, insert_note,
  update_note_row, soft_delete,
}

pub data NotesError : Type 0 where
  title_required nothing_to_update unauthenticated not_found refused_by_database : NotesError
  permission_denied : AuthorizationDeniedCode → NotesError
  group_refused : GroupError → NotesError
  envelope_refused : EnvelopeError → NotesError
  outbox_refused : OutboxError → NotesError

-- What the services below stand on: scope values, JSON, texts, and the device's signer.
pub record Platform (Scope Leaf : Type 0) : Type 0 where
  pub same : Scope → Scope → Bool
  pub parse_json : String → Option (Json Scope)
  pub trim : String → String
  pub literals : Literals Leaf
  pub stringify : Value Leaf → Option String
  pub encode : String → List ℕ
  pub iso_date : String → Option String
  pub payload_json : Option (Value Leaf) → String
  pub read_envelope : String → Option (SyncEnvelope Leaf)
  pub public_key : String
  pub sign : List ℕ → Result EnvelopeError String

-- The ids and times that a call draws.
pub record Fresh : Type 0 where
  pub now : String
  pub note_id : String
  pub op_id : String
  pub tombstone_id : String
  pub signed_at : String
  pub outbox_id : String
  pub outbox_now : ℕ

abbrev pub or_permission : Result AuthorizationDeniedCode (Unit {0}) → Result NotesError (Unit {0})
or_permission (ok u) = ok u
or_permission (err code) = err (permission_denied code)

abbrev pub or_group : Result GroupError (Unit {0}) → Result NotesError (Unit {0})
or_group (ok u) = ok u
or_group (err e) = err (group_refused e)

abbrev pub or_envelope :
    {Leaf : Type 0}
    → Result EnvelopeError (SyncEnvelope Leaf)
    → Result NotesError (SyncEnvelope Leaf)
or_envelope (ok e) = ok e
or_envelope (err e) = err (envelope_refused e)

abbrev pub or_outbox :
    Result OutboxError (OutboxRow × List OutboxRow) → Result NotesError (OutboxRow × List OutboxRow)
or_outbox (ok p) = ok p
or_outbox (err e) = err (outbox_refused e)

abbrev pub is_absent : Option String → Bool
is_absent none = true
is_absent (some t) = false

abbrev pub is_blank_change : Option String → Bool
unfolding is_blank
is_blank_change none = false
is_blank_change (some t) = is_blank t

abbrev pub content_or : String → Option String → String
content_or old none = old
content_or old (some t) = t

module _ {Scope Leaf : Type 0} (P : Platform Scope Leaf) where
  open P use {literals}

  -- requirePermission
  unfoldable pub require_permission : Context → String → Store → Result NotesError (Unit {0})
  unfolding require_trusted require_for_subject
  require_permission (trusted p device) permission s =
      or_permission (require_trusted P.same P.parse_json p permission none s.auth)
  require_permission (operation user device org) permission s = elim (truthy user) [
    | none ↦ err unauthenticated
    | some u ↦ or_permission (require_for_subject P.same P.parse_json u org permission none s.auth)
  ]

  -- A note as the payload of an operation.
  unfoldable pub note_value : NoteRecord → Value Leaf
  unfolding units
  note_value n = object (
      text_field literals "id" n.id (
        text_field literals "createdAt" n.created_at (
          text_field literals "updatedAt" n.updated_at (
            text_field literals "organisationId" n.organisation_id (
              text_field literals "syncGroupId" n.sync_group_id (
                text_field literals "title" n.title (
                  text_field literals "content" n.content (
                    text_field literals "authorId" n.author_id (
                      optional_field literals "deletedAt" n.deleted_at (
                        optional_field literals "deletedBy" n.deleted_by (
                          optional_field literals "deleteOperationId" n.delete_operation_id
                            close)))))))))))

  -- The operation on a note of the group.
  unfoldable pub note_operation :
      OperationType → Value Leaf → (group note_id : String) → Context → Fresh → SyncOperation Leaf
  note_operation type payload group i ctx f =
      let subject = extract_context_subject ctx in
      record {
        operation_id = f.op_id;
        application_id = "minimal-consumer";
        organisation_id = subject.organisation_id;
        sync_group_id = group;
        feature_id = "notes";
        entity_type = "notes";
        entity_id = i;
        operation = type;
        payload = some payload;
        author_id = acting_user ctx;
        device_id = subject.device_id;
        logical_timestamp = str_append f.now (str_append ":0001:" subject.device_id);
        schema_version = pos 1;
        protocol_version = pos 1;
      }

  -- enqueueOperation
  unfoldable pub enqueue_operation :
      SyncOperation Leaf → Fresh → NotesStore → Result NotesError NotesStore
  unfolding build enqueue
  enqueue_operation op f s = do
    e ←
        or_envelope
          (build literals P.stringify P.encode P.iso_date op P.public_key P.sign f.signed_at)
    rows ← or_outbox (
        enqueue literals P.stringify P.encode P.iso_date P.payload_json P.read_envelope e
          f.outbox_id f.outbox_now s.outbox)
    ok (record s { outbox = rows.1 })

  abbrev pub new_note : Context → (title content group : String) → Fresh → NoteRecord
  new_note ctx title content group f = record {
    id = f.note_id;
    created_at = f.now;
    updated_at = f.now;
    organisation_id = (extract_context_subject ctx).organisation_id;
    sync_group_id = group;
    title = P.trim title;
    content = content;
    author_id = acting_user ctx;
    deleted_at = none;
    deleted_by = none;
    delete_operation_id = none;
  }

  -- createNote(ctx, input)
  unfoldable pub create_note :
      Context → (title content group : String) → Fresh → NotesStore → Result NotesError NotesStore
  unfolding is_blank require_permission require_active_membership insert_note note_value
      note_operation enqueue_operation
  create_note ctx title content group f s = do
    throw_if (is_blank title) title_required
    require_permission ctx "notes.create" s.platform
    or_group (require_active_membership ctx group s.platform)
    notes ← or_throw (insert_note (new_note ctx title content group f) s.notes) refused_by_database
    enqueue_operation
        (note_operation create (note_value (new_note ctx title content group f)) group f.note_id ctx
          f)
        f (record s { notes = notes })

  abbrev pub trimmed_or : String → Option String → String
  trimmed_or old none = old
  trimmed_or old (some t) = P.trim t

  abbrev pub changed_note : NoteRecord → (title content : Option String) → Fresh → NoteRecord
  changed_note n title content f = record n {
    title = trimmed_or n.title title;
    content = content_or n.content content;
    updated_at = f.now;
  }

  -- updateNote(ctx, input)
  unfoldable pub update_note :
      Context
      → (id : String) → (title content : Option String) → Fresh
      → NotesStore
      → Result NotesError NotesStore
  unfolding is_blank_change require_permission find_note require_active_membership update_note_row
      note_value note_operation enqueue_operation
  update_note ctx i title content f s = do
    throw_if (is_absent title && is_absent content) nothing_to_update
    throw_if (is_blank_change title) title_required
    require_permission ctx "notes.update" s.platform
    n ← or_throw (find_note i (extract_context_subject ctx).organisation_id s.notes) not_found
    or_group (require_active_membership ctx n.sync_group_id s.platform)
    enqueue_operation
        (note_operation update (note_value (changed_note n title content f)) n.sync_group_id i ctx
          f)
        f (record s { notes = update_note_row i (changed_note n title content f) s.notes })

  abbrev pub tombstone_of : Context → NoteRecord → (id : String) → Fresh → TombstoneRow
  tombstone_of ctx n i f = record {
    id = f.tombstone_id;
    created_at = f.now;
    organisation_id = (extract_context_subject ctx).organisation_id;
    sync_group_id = n.sync_group_id;
    feature_id = "notes";
    entity_type = "notes";
    entity_id = i;
    deleted_at = f.now;
    deleted_by = acting_user ctx;
    delete_operation_id = f.op_id;
    replicated_at = none;
  }

  -- `{ id, deletedAt: now }`
  unfoldable pub deletion_value : (id now : String) → Value Leaf
  unfolding units
  deletion_value i now =
      object (text_field literals "id" i (text_field literals "deletedAt" now close))

  -- What deleteNote does behind its look-up.
  unfoldable pub delete_found :
      Context
      → (id : String) → Fresh
      → NotesStore
      → Option NoteRecord
      → Result NotesError NotesStore
  unfolding require_active_membership record_tombstone soft_delete deletion_value note_operation
      enqueue_operation
  delete_found ctx i f s none = ok s
  delete_found ctx i f s (some n) = do
    or_group (require_active_membership ctx n.sync_group_id s.platform)
    tombstones ←
        or_throw (record_tombstone (tombstone_of ctx n i f) s.tombstones) refused_by_database
    enqueue_operation (note_operation delete (deletion_value i f.now) n.sync_group_id i ctx f) f
        (record s {
          notes = soft_delete i (acting_user ctx) f.op_id f.now s.notes;
          tombstones = tombstones;
        })

  -- deleteNote(ctx, id)
  unfoldable pub delete_note :
      Context → (id : String) → Fresh → NotesStore → Result NotesError NotesStore
  unfolding require_permission find_note delete_found
  delete_note ctx i f s = do
    require_permission ctx "notes.delete" s.platform
    delete_found ctx i f s (find_note i (extract_context_subject ctx).organisation_id s.notes)

  abbrev pub check_found :
      Context → Store → Option NoteRecord → Result NotesError (Option NoteRecord)
  unfolding require_active_membership
  check_found ctx s none = ok none
  check_found ctx s (some n) =
      or_group (require_active_membership ctx n.sync_group_id s) >>= λ u. ok (some n)

  -- getNote(ctx, id)
  unfoldable pub get_note :
      Context → (id : String) → NotesStore → Result NotesError (Option NoteRecord)
  unfolding require_permission find_note check_found
  get_note ctx i s = do
    require_permission ctx "notes.read" s.platform
    check_found ctx s.platform (find_note i (extract_context_subject ctx).organisation_id s.notes)

  -- The notes of a group, or of all groups.
  unfoldable pub list_of :
      (newest : String → ℕ)
      → Context
      → NotesStore
      → Option String
      → Result NotesError (List NoteRecord)
  unfolding require_active_membership find_by_sync_group find_all_within_organisation
  list_of newest ctx s (some g) = do
    or_group (require_active_membership ctx g s.platform)
    ok (find_by_sync_group newest g (extract_context_subject ctx).organisation_id s.notes)
  list_of newest ctx s none =
      let subject = extract_context_subject ctx in
      ok (
        find_all_within_organisation newest subject.organisation_id subject.device_id
          subject.user_id s)

  -- listNotes(ctx, syncGroupId)
  unfoldable pub list_notes :
      (newest : String → ℕ)
      → Context
      → Option String
      → NotesStore
      → Result NotesError (List NoteRecord)
  unfolding require_permission list_of
  list_notes newest ctx group s = do
    require_permission ctx "notes.read" s.platform
    list_of newest ctx s (truthy group)
