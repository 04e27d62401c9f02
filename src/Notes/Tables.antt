-- ===== src/Notes/Tables.antt =====
-- The state behind NotesService of apps/minimal-consumer/src/notes: NotesRepository.ts over the table
-- notes, and the tables of the services that it calls. ISO times are texts.
use tauri_boilerplate.Base.{
  ℕ, Bool, true, false, ◌&&◌, ◌==◌, string_eq, if◌then◌else◌, String, Option, none, some, List, [],
  ◌∷◌, ◌++◌, any, filter, update_where, sort_by,
}
use tauri_boilerplate.Groups.Tables.{Store, find, GroupRow, MemberRow, DeviceRow, is_eligible}
use tauri_boilerplate.Groups.Access.{is_approved_device}
use tauri_boilerplate.Replication.Tombstones.{TombstoneRow}
use tauri_boilerplate.Replication.Outbox.{OutboxRow}

-- NoteRecord, with the table's null for a field that is absent
pub record NoteRecord : Type 0 where
  pub id : String
  pub created_at : String
  pub updated_at : String
  pub organisation_id : String
  pub sync_group_id : String
  pub title : String
  pub content : String
  pub author_id : String
  pub deleted_at : Option String
  pub deleted_by : Option String
  pub delete_operation_id : Option String

pub record NotesStore : Type 0 where
  pub platform : Store
  pub notes : List NoteRecord
  pub tombstones : List TombstoneRow
  pub outbox : List OutboxRow

abbrev pub is_null : Option String → Bool
is_null none = true
is_null (some t) = false

-- `deleted_at IS NULL`
abbrev pub is_live : NoteRecord → Bool
is_live n = is_null n.deleted_at

-- findByIdWithinOrganisation(id, organisationId)
unfoldable pub find_note : (id organisation : String) → List NoteRecord → Option NoteRecord
unfolding find
find_note i org ns =
    find (λ (n : NoteRecord). n.id == i && n.organisation_id == org && is_live n) ns

-- findBySyncGroup(syncGroupId, organisationId); `newest` is the order by created_at DESC
unfoldable pub find_by_sync_group :
    (newest : String → ℕ) → (group organisation : String) → List NoteRecord → List NoteRecord
find_by_sync_group newest group org ns =
    sort_by (λ (n : NoteRecord). newest n.created_at)
      (filter
        (λ (n : NoteRecord). n.sync_group_id == group && n.organisation_id == org && is_live n) ns)

-- The two EXISTS of findAllWithinOrganisation.
abbrev pub has_active_group : NoteRecord → Store → Bool
has_active_group n s =
    any
      (λ (g : GroupRow).
        g.id == n.sync_group_id && g.organisation_id == n.organisation_id && g.status == "ACTIVE")
      s.groups

abbrev pub has_membership : NoteRecord → (device : String) → Option String → Store → Bool
has_membership n device user s =
    any
      (λ (m : MemberRow).
        is_eligible device n.sync_group_id user m
        && any (λ (d : DeviceRow). d.device_id == m.device_id && is_approved_device (some d.status))
            s.devices)
      s.members

-- findAllWithinOrganisation(organisationId, deviceId, userId)
unfoldable pub find_all_within_organisation :
    (newest : String → ℕ)
    → (organisation device : String) → Option String
    → NotesStore
    → List NoteRecord
find_all_within_organisation newest org device user s =
    sort_by (λ (n : NoteRecord). newest n.created_at)
      (filter
        (λ (n : NoteRecord).
          n.organisation_id == org
          && is_live n
          && has_active_group n s.platform
          && has_membership n device user s.platform)
        s.notes)

-- BaseRepository.insert: nothing where the primary key refuses the row
unfoldable pub insert_note : NoteRecord → List NoteRecord → Option (List NoteRecord)
insert_note n ns = if any (λ (m : NoteRecord). m.id == n.id) ns then none else some (ns ++ n ∷ [])

-- BaseRepository.update: every column but the id
unfoldable pub update_note_row : String → NoteRecord → List NoteRecord → List NoteRecord
update_note_row i n ns =
    update_where (λ (m : NoteRecord). m.id == i) (λ (m : NoteRecord). record n { id = m.id }) ns

-- softDeleteWithOperationId(id, deletedBy, deleteOperationId, deletedAt)
unfoldable pub soft_delete :
    (id deleted_by operation deleted_at : String) → List NoteRecord → List NoteRecord
soft_delete i user op now ns =
    update_where (λ (m : NoteRecord). m.id == i && is_live m)
      (λ (m : NoteRecord). record m {
        deleted_at = some now;
        deleted_by = some user;
        delete_operation_id = some op;
      })
      ns
