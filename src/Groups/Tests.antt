-- ===== src/Groups/Tests.antt =====
-- A device is admitted to a group, revoked and admitted again. Scope values are texts, no constraint
-- is stored, and names are taken as they are.
use tauri_boilerplate.Base.{
  ◌≡◌, ◌≢◌, refl, Bool, true, false, ◌==◌, string_eq, String, Option, none, some, List, [], ◌∷◌, ok,
  is_blank,
}
use tauri_boilerplate.Authorization.Engine.{Tables, Json}
use tauri_boilerplate.Groups.Tables.{
  MembershipStatus, active, RequestRow, GroupRow, MemberRow, Store, find_request,
  find_membership_status, find_device_status, pending, revoked,
}
use tauri_boilerplate.Groups.Context.{Context, operation, Statement}
use tauri_boilerplate.Groups.Service.{
  approve_membership, revoke_membership, request_membership, create_group,
}
use tauri_boilerplate.Groups.Access.{can_sync, require_active_membership}
use tauri_boilerplate.Groups.Calls.{
  Call, create, request, approve, revoke, run, perform, perform_all,
}
use tauri_boilerplate.Groups.Founded.{IsFounded}
use tauri_boilerplate.Groups.Invariant.{perform_all-IsFounded}
use tauri_boilerplate.Groups.Revoked.{revoked_stays_out}
use tauri_boilerplate.Groups.Authorised.{Authorised, run-Authorised}
use tauri_boilerplate.Groups.Readmitted.{readmitted_disagree}

abbrev same : String → String → Bool
same a b = a == b

abbrev parse_json : String → Option (Json String)
parse_json t = none

abbrev trim : String → String
trim t = t

abbrev accepts : Statement → Store → Bool
accepts st s = false

-- Anna's role holds sync.manage in the organisation.
abbrev roles : Tables
roles = record {
  user_roles = record { user_id = "anna"; organisation_id = "org"; role_id = "admin" } ∷ [];
  roles = record { id = "admin"; organisation_id = "org" } ∷ [];
  role_permissions =
      record { role_id = "admin"; permission_id = "p"; scope_constraints_json = none } ∷ [];
  permissions = record { id = "p"; name = "sync.manage" } ∷ [];
}

abbrev empty : Store
empty = record {
  auth = roles;
  groups = [];
  requests = [];
  decisions = [];
  members = [];
  revocations = [];
  devices = record { device_id = "phone"; status = "ACTIVE" } ∷ [];
}

abbrev anna : Context
anna = operation (some "anna") "phone" "org"

abbrev first_calls : List Call
first_calls =
    create "team" none "org" anna "g" 1
    ∷ request "g" "phone" none "r1" 2
    ∷ approve "r1" anna none none "d1" "m1" 3
    ∷ []

abbrev joined : Store
unfolding perform_all
joined = perform_all same parse_json trim accepts first_calls empty

joined-can_sync : can_sync "phone" "g" joined ≡ true
unfolding joined can_sync is_blank create_group request_membership approve_membership
joined-can_sync = refl

empty-IsFounded : IsFounded empty
unfolding find_request
empty-IsFounded = record { decided = λ i. refl; admitted = tt }

perform_all-IsFounded_example :
    IsFounded (perform_all same parse_json trim accepts first_calls empty)
perform_all-IsFounded_example =
    perform_all-IsFounded same parse_json trim accepts first_calls empty empty-IsFounded

abbrev team : GroupRow
team = record {
  id = "g";
  created_at = 1;
  created_by = some "anna";
  organisation_id = "org";
  name = "team";
  description = none;
  status = "ACTIVE";
}

abbrev member : MembershipStatus → MemberRow
member status = record {
  id = "m1";
  group_id = "g";
  device_id = "phone";
  user_id = none;
  status = status;
  joined_at = 3;
  revoked_at = none;
  revoked_by = none;
  revocation_reason = none;
}

abbrev with_member : Store
with_member = record empty { groups = team ∷ []; members = member active ∷ [] }

abbrev left : Store
unfolding perform
left = perform same parse_json trim accepts (revoke "phone" "g" anna "lost" "v" 4) with_member

abbrev later : List Call
later = request "g" "phone" none "r2" 5 ∷ []

revoked_stays_out_example :
    let t = perform_all same parse_json trim accepts later left in
    (can_sync "phone" "g" t ≡ false) × (require_active_membership anna "g" t ≢ ok tt)
unfolding left revoke_membership is_blank
revoked_stays_out_example =
    revoked_stays_out same parse_json trim accepts "phone" "g" anna "lost" "v" 4 with_member left
      later anna refl (tt, tt) refl

abbrev second_request : RequestRow
second_request = record {
  id = "r2";
  device_id = "phone";
  group_id = "g";
  user_id = none;
  requested_at = 5;
  status = pending;
}

abbrev again : Store
again = record empty {
  groups = team ∷ [];
  requests = second_request ∷ [];
  members = member revoked ∷ [];
}

abbrev readmission : Call
readmission = approve "r2" anna none none "d2" "m2" 6

abbrev back : Store
unfolding perform
back = perform same parse_json trim accepts readmission again

run-Authorised_example : Authorised same parse_json trim accepts readmission again
unfolding back run approve_membership
run-Authorised_example = run-Authorised same parse_json trim accepts readmission again back refl

readmitted_disagree_example :
    (can_sync "phone" "g" back ≡ false) × (require_active_membership anna "g" back ≡ ok tt)
unfolding back approve_membership find_request find_membership_status find_device_status
readmitted_disagree_example =
    readmitted_disagree same parse_json trim accepts "r2" anna none none "d2" "m2" 6 again back
      second_request team anna refl refl refl refl refl refl refl refl refl
