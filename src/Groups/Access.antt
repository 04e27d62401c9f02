-- ===== src/Groups/Access.antt =====
-- `canSync` and `requireActiveMembership` of SyncGroupService.
use tauri_boilerplate.Base.{
  Bool, false, ◌||◌, not, ◌==◌, string_eq, if◌then◌else◌, String, Option, none, some, Result, ok,
  err, ◌>>=◌, ◌>>◌, throw_if, or_throw,
}
use tauri_boilerplate.Groups.Tables.{
  Store, find_group, find_membership_status, find_device_status, MembershipEligibility,
  find_membership_eligibility,
}
use tauri_boilerplate.Groups.Context.{
  Context, extract_context_subject, GroupError, group_not_found, other_organisation, group_inactive,
  device_not_approved, membership_not_approved, not_admitted,
}

abbrev pub is_approved_device : Option String → Bool
is_approved_device none = false
is_approved_device (some status) = status == "APPROVED" || status == "ACTIVE"

-- canSync(deviceId, groupId)
unfoldable pub can_sync : (device group : String) → Store → Bool
unfolding find_membership_status find_device_status
can_sync device group s =
    if not (is_approved_device (find_device_status device s.devices))
    then false
    else not (not_admitted (find_membership_status device group s.members))

abbrev pub check_eligibility : Option MembershipEligibility → Result GroupError (Unit {0})
check_eligibility none = err device_not_approved
check_eligibility (some e) =
    if not (is_approved_device (some e.device_status))
    then err device_not_approved
    else elim e.membership_status [ none ↦ err membership_not_approved | some status ↦ ok tt ]

-- requireActiveMembership(ctx, groupId)
unfoldable pub require_active_membership : Context → String → Store → Result GroupError (Unit {0})
unfolding find_membership_eligibility
require_active_membership ctx group s = do
  let subject = extract_context_subject ctx
  g ← or_throw (find_group group s) group_not_found
  throw_if (not (g.organisation_id == subject.organisation_id)) other_organisation
  throw_if (not (g.status == "ACTIVE")) group_inactive
  check_eligibility (find_membership_eligibility group subject.device_id subject.user_id s)
