-- ===== src/Replication/Tombstones.antt =====
-- TombstoneService of packages/sync/src/tombstone/TombstoneService.ts. The table core_sync_tombstones is a
-- list of rows with its primary key and its unique delete operation ids. ISO times are texts, and `rank` is
-- a text's place in their order.
use tauri_boilerplate.Base.{
  ℕ, Bool, true, false, ◌&&◌, ◌||◌, ◌==◌, string_eq, if◌then◌else◌, String, Option, none, some,
  List, [], ◌∷◌, ◌++◌, any, filter, update_where, sort_by,
}

-- The row, and TombstoneRecord, which has the same fields.
pub record TombstoneRow : Type 0 where
  pub id : String
  pub created_at : String
  pub organisation_id : String
  pub sync_group_id : String
  pub feature_id : String
  pub entity_type : String
  pub entity_id : String
  pub deleted_at : String
  pub deleted_by : String
  pub delete_operation_id : String
  pub replicated_at : Option String

-- record(…): nothing where the table refuses the row
unfoldable pub record_tombstone : TombstoneRow → List TombstoneRow → Option (List TombstoneRow)
record_tombstone r t =
    if any (λ (s : TombstoneRow). s.id == r.id || s.delete_operation_id == r.delete_operation_id) t
    then none
    else some (t ++ r ∷ [])

-- isDeleted(entityType, entityId, orgId)
unfoldable pub is_deleted : (entity_type entity_id org : String) → List TombstoneRow → Bool
is_deleted type i org t =
    any
      (λ (r : TombstoneRow). r.organisation_id == org && r.entity_type == type && r.entity_id == i)
      t

abbrev pub is_unsent : TombstoneRow → Bool
is_unsent r = elim r.replicated_at [ none ↦ true | some at ↦ false ]

-- propagatePending()
unfoldable pub propagate_pending : (rank : String → ℕ) → List TombstoneRow → List TombstoneRow
propagate_pending rank t = sort_by (λ (r : TombstoneRow). rank r.deleted_at) (filter is_unsent t)

-- markReplicated(deleteOperationId)
unfoldable pub mark_replicated : String → (now : String) → List TombstoneRow → List TombstoneRow
mark_replicated op now t =
    update_where (λ (r : TombstoneRow). r.delete_operation_id == op)
      (λ r. record r { replicated_at = some now }) t
