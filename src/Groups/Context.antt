-- ===== src/Groups/Context.antt =====
-- The callers, errors and row updates of SyncGroupService, packages/authorization/src/sync-group/SyncGroupService.ts.
use tauri_boilerplate.Base.{
  ℕ, Bool, true, false, not, ◌==◌, string_eq, String, Option, none, some, [], ◌∷◌, ◌++◌, Result, ok,
  err, ◌>>=◌, throw_if, or_throw, update_where,
}
use tauri_boilerplate.Authorization.Engine.{AuthorizationDeniedCode, Principal}
use tauri_boilerplate.Groups.Tables.{
  MembershipStatus, approved, revoked, is_admitted, RequestStatus, RequestRow, DecisionRow,
  MemberRow, Store, find_group,
}

-- OperationContext, whose caller may have no user, or TrustedOperationContext
pub data Context : Type 0 where
  operation : (user_id : Option String) → (device_id organisation_id : String) → Context
  trusted : Principal → (device_id : String) → Context

-- ContextSubject of packages/core/src/context/OperationContext.ts
pub record ContextSubject : Type 0 where
  pub user_id : Option String
  pub device_id : String
  pub organisation_id : String

-- extractContextSubject
abbrev pub extract_context_subject : Context → ContextSubject
extract_context_subject (operation user device org) = record {
  user_id = user;
  device_id = device;
  organisation_id = org;
}
extract_context_subject (trusted p device) = record {
  user_id = some p.user_id;
  device_id = device;
  organisation_id = p.organisation_id;
}

-- Who a decision or a revocation is recorded for.
abbrev pub acting_user : Context → String
acting_user (operation none device org) = "system"
acting_user (operation (some u) device org) = u
acting_user (trusted p device) = p.user_id

pub data GroupError : Type 0 where
  name_required cross_tenant unauthenticated group_not_found other_organisation : GroupError
  request_not_found not_pending other_device reason_required not_a_member : GroupError
  group_inactive device_not_approved membership_not_approved refused_by_database : GroupError
  permission_denied : AuthorizationDeniedCode → GroupError

pub data Statement : Type 0 where
  insert_group insert_membership_request insert_decision set_request_status : Statement
  insert_member revoke_member insert_revocation : Statement

abbrev pub denied_as {ℓ} : {A : Type ℓ} → Result AuthorizationDeniedCode A → Result GroupError A
denied_as (ok a) = ok a
denied_as (err code) = err (permission_denied code)

-- `expectedDeviceId !== undefined && req.device_id !== expectedDeviceId`
abbrev pub is_other_device : Option String → String → Bool
is_other_device none device = false
is_other_device (some expected) device = not (device == expected)

-- requireGroupOrganisation
unfoldable pub require_group_organisation : String → Context → Store → Result GroupError (Unit {0})
require_group_organisation group ctx s = do
  g ← or_throw (find_group group s) group_not_found
  throw_if (not (g.organisation_id == (extract_context_subject ctx).organisation_id))
      other_organisation

abbrev pub add_decision : DecisionRow → Store → Store
add_decision d s = record s { decisions = s.decisions ++ d ∷ [] }

abbrev pub decide_request : String → RequestStatus → Store → Store
decide_request i status s = record s {
  requests =
      update_where (λ (r : RequestRow). r.id == i) (λ r. record r { status = status }) s.requests;
}

abbrev pub add_member : MemberRow → Store → Store
add_member m s = record s { members = s.members ++ m ∷ [] }

abbrev pub new_member : RequestRow → String → ℕ → MemberRow
new_member req id now = record {
  id = id;
  group_id = req.group_id;
  device_id = req.device_id;
  user_id = req.user_id;
  status = approved;
  joined_at = now;
  revoked_at = none;
  revoked_by = none;
  revocation_reason = none;
}

abbrev pub not_admitted : Option MembershipStatus → Bool
not_admitted none = true
not_admitted (some status) = not (is_admitted status)

abbrev pub revoke_row : ℕ → String → String → MemberRow → MemberRow
revoke_row now user reason m = record m {
  status = revoked;
  revoked_at = some now;
  revoked_by = some user;
  revocation_reason = some reason;
}
