-- ===== src/Groups/Tables.antt =====
-- The tables behind SyncGroupService, and SyncGroupRepository of
-- packages/authorization/src/repositories/SyncGroupRepository.ts. An ISO time is a number.
use tauri_boilerplate.Base.{
  ℕ, Bool, true, false, ◌&&◌, ◌==◌, string_eq, if◌then◌else◌, String, Option, none, some, List, [],
  ◌∷◌,
}
use tauri_boilerplate.Authorization.Engine.{Tables}

pub data MembershipStatus : Type 0 where
  requested approved active suspended expired revoked rejected : MembershipStatus

-- The statuses of core_membership_requests, and the decisions of core_membership_decisions.
pub data RequestStatus : Type 0 where
  pending accepted refused : RequestStatus

-- `status = 'APPROVED' OR status = 'ACTIVE'`
abbrev pub is_admitted : MembershipStatus → Bool
is_admitted approved = true
is_admitted active = true
is_admitted requested = false
is_admitted suspended = false
is_admitted expired = false
is_admitted revoked = false
is_admitted rejected = false

abbrev pub is_pending : RequestStatus → Bool
is_pending pending = true
is_pending accepted = false
is_pending refused = false

-- core_sync_groups
pub record GroupRow : Type 0 where
  pub id : String
  pub created_at : ℕ
  pub created_by : Option String
  pub organisation_id : String
  pub name : String
  pub description : Option String
  pub status : String

-- core_membership_requests
pub record RequestRow : Type 0 where
  pub id : String
  pub device_id : String
  pub group_id : String
  pub user_id : Option String
  pub requested_at : ℕ
  pub status : RequestStatus

-- core_membership_decisions
pub record DecisionRow : Type 0 where
  pub id : String
  pub request_id : String
  pub decided_by : String
  pub decision : RequestStatus
  pub decided_at : ℕ
  pub signature : Option String

-- core_sync_group_members
pub record MemberRow : Type 0 where
  pub id : String
  pub group_id : String
  pub device_id : String
  pub user_id : Option String
  pub status : MembershipStatus
  pub joined_at : ℕ
  pub revoked_at : Option ℕ
  pub revoked_by : Option String
  pub revocation_reason : Option String

-- core_revocations
pub record RevocationRow : Type 0 where
  pub id : String
  pub device_id : String
  pub group_id : String
  pub revoked_by : String
  pub revoked_at : ℕ
  pub reason : String

-- core_devices
pub record DeviceRow : Type 0 where
  pub device_id : String
  pub status : String

-- The tables that the service reads and writes, each in the order of insertion.
pub record Store : Type 0 where
  pub auth : Tables
  pub groups : List GroupRow
  pub requests : List RequestRow
  pub decisions : List DecisionRow
  pub members : List MemberRow
  pub revocations : List RevocationRow
  pub devices : List DeviceRow

-- The first row that a SELECT … LIMIT 1 finds.
unfoldable pub find {ℓ} : {Row : Type ℓ} → (Row → Bool) → List Row → Option Row
find p [] = none
find p (r ∷ t) = if p r then some r else find p t

abbrev pub find_group : String → Store → Option GroupRow
unfolding find
find_group i s = find (λ (g : GroupRow). g.id == i) s.groups

unfoldable pub find_request : String → List RequestRow → Option RequestRow
unfolding find
find_request i rs = find (λ (r : RequestRow). r.id == i) rs

-- `device_id = ? AND group_id = ?`
abbrev pub is_member_of : String → String → MemberRow → Bool
is_member_of device group m = m.device_id == device && m.group_id == group

unfoldable pub find_membership_status : String → String → List MemberRow → Option MembershipStatus
unfolding find
find_membership_status device group ms = elim (find (is_member_of device group) ms) [
  | none ↦ none
  | some m ↦ some m.status
]

unfoldable pub find_device_status : String → List DeviceRow → Option String
unfolding find
find_device_status device ds = elim (find (λ (d : DeviceRow). d.device_id == device) ds) [
  | none ↦ none
  | some d ↦ some d.status
]

-- `m.user_id IS NULL OR m.user_id = ?`, where the argument may be NULL
abbrev pub binds_user : Option String → Option String → Bool
binds_user none user = true
binds_user (some u) none = false
binds_user (some u) (some v) = u == v

-- The ON clause of findMembershipEligibility.
abbrev pub is_eligible : String → String → Option String → MemberRow → Bool
is_eligible device group user m =
    m.device_id == device
    && m.group_id == group
    && is_admitted m.status
    && binds_user m.user_id user

pub record MembershipEligibility : Type 0 where
  pub device_status : String
  pub membership_status : Option MembershipStatus

unfoldable pub find_membership_eligibility :
    (group device : String) → Option String → Store → Option MembershipEligibility
unfolding find find_device_status
find_membership_eligibility group device user s = elim (find_device_status device s.devices) [
  | none ↦ none
  | some status ↦ some (record {
    device_status = status;
    membership_status = elim (find (is_eligible device group user) s.members) [
      | none ↦ none
      | some m ↦ some m.status
    ];
  })
]
