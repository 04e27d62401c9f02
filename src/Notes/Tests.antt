-- ===== src/Notes/Tests.antt =====
-- Anna writes a note, changes it and deletes it. Scope values are texts and no constraint is stored.
use tauri_boilerplate.Base.{
  ℕ, ◌≡◌, refl, ◌==◌, string_eq, String, none, some, List, [], ◌∷◌, ◌++◌, map, ok, sort_by,
  is_blank, All,
}
use tauri_boilerplate.Authorization.Engine.{Permission, RolePermission}
use tauri_boilerplate.Groups.Tables.{approved, Store, find}
use tauri_boilerplate.Groups.Context.{Context, operation}
use tauri_boilerplate.Clock.Parse.{parse, parse_canonical, parse_legacy, span}
use tauri_boilerplate.Clock.Iso.{read_iso, epoch_millis}
use tauri_boilerplate.Envelope.Samples.{literals, stringify, encode, iso_date, key, sign, envelope}
use tauri_boilerplate.Replication.Outbox.{OutboxRow, mark_sent}
use tauri_boilerplate.Notes.Tables.{NoteRecord, NotesStore}
use tauri_boilerplate.Notes.Service.{
  Platform, Fresh, require_permission, create_note, update_note, delete_note, list_notes,
}
use tauri_boilerplate.Notes.Pruning.{prune_outbox}
use tauri_boilerplate.Notes.Calls.{
  Call, create, update, delete, sent, prunes_outbox, State, IsSafe, perform_all, perform_all-IsSafe,
}
use tauri_boilerplate.Notes.Reading.{IsReadable, list_notes-IsReadable}

abbrev platform : Platform String String
platform = record {
  same = λ a b. a == b;
  parse_json = λ t. none;
  trim = λ t. t;
  literals = literals;
  stringify = stringify;
  encode = encode;
  iso_date = iso_date;
  payload_json = λ v. "{}";
  read_envelope = λ t. some envelope;
  public_key = key;
  sign = sign;
}

abbrev permitted : String → RolePermission
permitted p = record { role_id = "writer"; permission_id = p; scope_constraints_json = none }

abbrev permission : String → Permission
permission p = record { id = p; name = p }

abbrev tables : Store
tables = record {
  auth = record {
    user_roles = record { user_id = "anna"; organisation_id = "org"; role_id = "writer" } ∷ [];
    roles = record { id = "writer"; organisation_id = "org" } ∷ [];
    role_permissions =
        map permitted ("notes.read" ∷ "notes.create" ∷ "notes.update" ∷ "notes.delete" ∷ []);
    permissions =
        map permission ("notes.read" ∷ "notes.create" ∷ "notes.update" ∷ "notes.delete" ∷ []);
  };
  groups =
      record {
        id = "g";
        created_at = 1;
        created_by = none;
        organisation_id = "org";
        name = "team";
        description = none;
        status = "ACTIVE";
      }
      ∷ [];
  requests = [];
  decisions = [];
  members =
      record {
        id = "m";
        group_id = "g";
        device_id = "phone";
        user_id = none;
        status = approved;
        joined_at = 1;
        revoked_at = none;
        revoked_by = none;
        revocation_reason = none;
      }
      ∷ [];
  revocations = [];
  devices = record { device_id = "phone"; status = "ACTIVE" } ∷ [];
}

abbrev empty : NotesStore
empty = record { platform = tables; notes = []; tombstones = []; outbox = [] }

abbrev start : State
start = (empty, record { tombstones = []; outbox = [] })

abbrev anna : Context
anna = operation (some "anna") "phone" "org"

abbrev fresh : String → Fresh
fresh op = record {
  now = "2026-01-01T00:00:00.000Z";
  note_id = "n";
  op_id = op;
  tombstone_id = "t";
  signed_at = "2026-01-01T00:00:00.000Z";
  outbox_id = op;
  outbox_now = 1;
}

abbrev calls : List Call
calls =
    create anna "title" "text" "g" (fresh "op1")
    ∷ update anna "n" none (some "more") (fresh "op2")
    ∷ delete anna "n" (fresh "op3")
    ∷ []

calls_sent :
    map {B = String × String}
      (λ (r : OutboxRow). (r.operation, r.entity_id))
      (perform_all platform calls start).0.outbox
    ≡ ("create", "n") ∷ ("update", "n") ∷ ("delete", "n") ∷ []
unfolding perform_all create_note update_note delete_note is_blank require_permission parse
    parse_canonical parse_legacy read_iso epoch_millis span sort_by
calls_sent = refl

-- Two edits within one millisecond carry one timestamp.
same_timestamp :
    map (λ (r : OutboxRow). r.logical_timestamp) (perform_all platform calls start).0.outbox
    ≡ "2026-01-01T00:00:00.000Z:0001:phone" ∷ "2026-01-01T00:00:00.000Z:0001:phone"
      ∷ "2026-01-01T00:00:00.000Z:0001:phone" ∷ []
unfolding perform_all create_note update_note delete_note is_blank require_permission parse
    parse_canonical parse_legacy read_iso epoch_millis span sort_by
same_timestamp = refl

-- The rows are sent, and the first is pruned.
abbrev pruned_calls : List Call
pruned_calls =
    calls ++ sent "op1" 5 ∷ sent "op2" 5 ∷ prunes_outbox (λ r. r.envelope_id == "op1") ∷ []

pruned_left :
    let (s, g) = perform_all platform pruned_calls start in
    (map (λ (r : OutboxRow). r.operation) s.outbox ≡ "update" ∷ "delete" ∷ [])
    × (map (λ (r : OutboxRow). r.operation) g.outbox ≡ "create" ∷ [])
unfolding perform_all create_note update_note delete_note is_blank require_permission parse
    parse_canonical parse_legacy read_iso epoch_millis span sort_by prune_outbox mark_sent
pruned_left = (refl, refl)

start-IsSafe : IsSafe start
start-IsSafe = record { published = tt; were_sent = record { rows = tt; marked = tt } }

perform_all-IsSafe_example : IsSafe (perform_all platform pruned_calls start)
perform_all-IsSafe_example = perform_all-IsSafe platform pruned_calls start start-IsSafe

abbrev note : (id group organisation : String) → NoteRecord
note i group org = record {
  id = i;
  created_at = "2026-01-01T00:00:00.000Z";
  updated_at = "2026-01-01T00:00:00.000Z";
  organisation_id = org;
  sync_group_id = group;
  title = "title";
  content = "text";
  author_id = "anna";
  deleted_at = none;
  deleted_by = none;
  delete_operation_id = none;
}

-- Of three notes one is in a group of the device.
abbrev written : NotesStore
written = record empty {
  notes = note "n1" "g" "org" ∷ note "n2" "h" "org" ∷ note "n3" "g" "elsewhere" ∷ [];
}

abbrev newest : String → ℕ
newest t = 0

written_list : list_notes platform newest anna none written ≡ ok (note "n1" "g" "org" ∷ [])
unfolding list_notes require_permission sort_by
written_list = refl

list_notes-IsReadable_example : All (IsReadable anna written) (note "n1" "g" "org" ∷ [])
unfolding find
list_notes-IsReadable_example =
    list_notes-IsReadable platform newest anna written none (note "n1" "g" "org" ∷ []) (refl, tt)
      (refl, tt) written_list
