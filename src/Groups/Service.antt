-- ===== src/Groups/Service.antt =====
-- SyncGroupService of packages/authorization/src/sync-group/SyncGroupService.ts. A call runs in a
-- transaction: where it throws, its writes are gone. New ids and times are arguments.
use tauri_boilerplate.Base.{
  ℕ, Bool, not, ◌==◌, string_eq, if◌then◌else◌, String, Option, none, some, [], ◌∷◌, ◌++◌, any,
  Result, ok, err, ◌>>=◌, ◌>>◌, throw_if, or_throw, update_where, is_blank, truthy,
}
use tauri_boilerplate.Authorization.Engine.{Json, require_trusted, require_for_subject}
use tauri_boilerplate.Groups.Tables.{
  pending, accepted, refused, is_pending, GroupRow, RequestRow, DecisionRow, Store, find_request,
  is_member_of, find_membership_status,
}
use tauri_boilerplate.Groups.Context.{
  Context, operation, trusted, extract_context_subject, acting_user, GroupError, name_required,
  cross_tenant, unauthenticated, request_not_found, not_pending, other_device, reason_required,
  not_a_member, refused_by_database, Statement, insert_group, insert_membership_request,
  insert_decision, set_request_status, insert_member, revoke_member, insert_revocation, denied_as,
  is_other_device, require_group_organisation, add_decision, decide_request, add_member, new_member,
  not_admitted, revoke_row,
}

-- `trim` is an argument. The database may refuse a statement for a reason of its own, such as a foreign
-- key or a full disk.
module _ {Value : Type 0} (same : Value → Value → Bool) (parse_json : String → Option (Json Value))
    (trim : String → String) (refuses : Statement → Store → Bool) where
  abbrev pub execute : Statement → (before after : Store) → Result GroupError Store
  execute st before after = if refuses st before then err refused_by_database else ok after

  -- requirePermission
  unfoldable pub require_permission : Context → String → Store → Result GroupError (Unit {0})
  unfolding require_trusted require_for_subject
  require_permission (trusted p device) permission s =
      denied_as (require_trusted same parse_json p permission none s.auth)
  require_permission (operation user device org) permission s = elim (truthy user) [
    | none ↦ err unauthenticated
    | some u ↦ denied_as (require_for_subject same parse_json u org permission none s.auth)
  ]

  -- createGroup(input, ctx)
  unfoldable pub create_group :
      (name : String) (description : Option String) (organisation : String)
      → Context
      → (id : String) (now : ℕ) → Store
      → Result GroupError Store
  unfolding require_permission is_blank
  create_group name description organisation ctx id now s = do
    throw_if (is_blank name) name_required
    throw_if (not (organisation == (extract_context_subject ctx).organisation_id)) cross_tenant
    require_permission ctx "sync.manage" s
    throw_if (any (λ (g : GroupRow). g.id == id) s.groups) refused_by_database
    execute insert_group s (record s {
      groups =
          s.groups
          ++ record {
            id = id;
            created_at = now;
            created_by = (extract_context_subject ctx).user_id;
            organisation_id = organisation;
            name = trim name;
            description = description;
            status = "ACTIVE";
          }
            ∷ [];
    })

  -- requestMembership(groupId, deviceId, userId)
  unfoldable pub request_membership :
      (group device : String)
      → Option String
      → (id : String) (now : ℕ) → Store
      → Result GroupError Store
  request_membership group device user id now s = do
    throw_if (any (λ (r : RequestRow). r.id == id) s.requests) refused_by_database
    execute insert_membership_request s (record s {
      requests =
          s.requests
          ++ record {
            id = id;
            device_id = device;
            group_id = group;
            user_id = user;
            requested_at = now;
            status = pending;
          }
            ∷ [];
    })

  -- The checks with which approveMembership and rejectMembership begin: the pending request.
  unfoldable pub check_request : String → Context → Store → Result GroupError RequestRow
  unfolding require_permission require_group_organisation find_request
  check_request request ctx s = do
    require_permission ctx "sync.manage" s
    req ← or_throw (find_request request s.requests) request_not_found
    require_group_organisation req.group_id ctx s
    throw_if (not (is_pending req.status)) not_pending
    ok req

  -- The three writes of approveMembership.
  unfoldable pub admit_member :
      RequestRow → DecisionRow → (member_id : String) (now : ℕ) → Store → Result GroupError Store
  admit_member req d member_id now s = do
    s₁ ← execute insert_decision s (add_decision d s)
    s₂ ← execute set_request_status s₁ (decide_request d.request_id accepted s₁)
    execute insert_member s₂ (add_member (new_member req member_id now) s₂)

  -- approveMembership(requestId, approver, signature, tx, expectedDeviceId)
  unfoldable pub approve_membership :
      (request : String)
      → Context
      → (signature expected_device : Option String) → (decision_id member_id : String) (now : ℕ)
      → Store
      → Result GroupError Store
  unfolding check_request admit_member
  approve_membership request approver signature expected_device decision_id member_id now s = do
    req ← check_request request approver s
    throw_if (is_other_device expected_device req.device_id) other_device
    admit_member req
        (record {
          id = decision_id;
          request_id = request;
          decided_by = acting_user approver;
          decision = accepted;
          decided_at = now;
          signature = signature;
        })
        member_id now s

  -- revokeMembership(deviceId, groupId, revokedBy, reason)
  unfoldable pub revoke_membership :
      (device group : String)
      → Context
      → (reason : String) → (revocation_id : String) (now : ℕ) → Store
      → Result GroupError Store
  unfolding require_permission require_group_organisation is_blank find_membership_status
  revoke_membership device group ctx reason revocation_id now s = do
    require_permission ctx "sync.manage" s
    require_group_organisation group ctx s
    throw_if (is_blank reason) reason_required
    throw_if (not_admitted (find_membership_status device group s.members)) not_a_member
    s₁ ← execute revoke_member s (record s {
      members =
          update_where (is_member_of device group) (revoke_row now (acting_user ctx) reason)
            s.members;
    })
    execute insert_revocation s₁ (record s₁ {
      revocations =
          s₁.revocations
          ++ record {
            id = revocation_id;
            device_id = device;
            group_id = group;
            revoked_by = acting_user ctx;
            revoked_at = now;
            reason = reason;
          }
            ∷ [];
    })

  -- rejectMembership(requestId, rejector, reason)
  unfoldable pub reject_membership :
      (request : String)
      → Context
      → (decision_id : String) (now : ℕ) → Store
      → Result GroupError Store
  unfolding check_request
  reject_membership request rejector decision_id now s = do
    req ← check_request request rejector s
    s₁ ← execute insert_decision s (
        add_decision
          (record {
            id = decision_id;
            request_id = request;
            decided_by = acting_user rejector;
            decision = refused;
            decided_at = now;
            signature = none;
          })
          s)
    execute set_request_status s₁ (decide_request request refused s₁)
