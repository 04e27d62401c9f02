-- ===== src/Groups/Readmitted.antt =====
-- The two tests of a membership, on a device that was revoked and is approved again.
use tauri_boilerplate.Base.{
  ℕ, ◌≡◌, refl, sym, ◌∙◌, Bool, true, false, ==_refl, string_eq, eq_iff, String, Option, none, some,
  List, [], ◌∷◌, ◌++◌, ok, arith, if◌then◌else◌, Option-cases, Bool-cases, some_injective, inl, inr,
}
use tauri_boilerplate.Authorization.Engine.{Json}
use tauri_boilerplate.Groups.Tables.{
  revoked, GroupRow, RequestRow, MemberRow, Store, find, find_group, find_request, is_member_of,
  is_eligible, binds_user, find_membership_status, find_membership_eligibility, find_device_status,
}
use tauri_boilerplate.Groups.Context.{Context, Statement, extract_context_subject, new_member}
use tauri_boilerplate.Groups.Service.{approve_membership}
use tauri_boilerplate.Groups.Access.{can_sync, require_active_membership, is_approved_device}
use tauri_boilerplate.Groups.Effects.{check_request-ok, approve-effect}

module _ {ℓ} {Row : Type ℓ} (p : Row → Bool) where
  -- A row added at the end is found where none was found before.
  find-append :
      (rows : List Row) (r : Row)
      → find p (rows ++ r ∷ [])
        ≡ elim (find p rows) [ none ↦ if p r then some r else none | some x ↦ some x ]
  unfolding find
  find-append [] r = refl
  find-append (x ∷ rows) r = elim (Bool-cases (p x)) [
    | inl e ↦ rw (e, find) refl
    | inr e ↦ rw (e, find) (find-append rows r)
  ]

still_first :
    (device group : String) (ms : List MemberRow) (m : MemberRow)
    → find_membership_status device group ms ≡ some revoked
    → find_membership_status device group (ms ++ m ∷ []) ≡ some revoked
unfolding find_membership_status
still_first device group ms m h = elim (Option-cases (find (is_member_of device group) ms)) [
  | inl e ↦ absurd (ground arith)
  | inr (x, e) ↦ ground (arith, find-append (is_member_of device group) ms m)
]

found_at_last :
    {Row : Type 0} (p : Row → Bool) (rows : List Row) (r : Row)
    → p r ≡ true
    → (x : Row) × (find p (rows ++ r ∷ []) ≡ some x)
found_at_last p rows r h = elim (Option-cases (find p rows)) [
  | inl e ↦ (r, find-append p rows r ∙ rw (e, h) refl)
  | inr (x, e) ↦ (x, find-append p rows r ∙ rw (e) refl)
]

module _ {Value : Type 0} (same : Value → Value → Bool) (parse_json : String → Option (Json Value))
    (trim : String → String) (refuses : Statement → Store → Bool) where
  new-eligible :
      (req : RequestRow) (member : String) (now : ℕ) (device : String) (user : Option String)
      → device ≡ req.device_id
      → binds_user req.user_id user ≡ true
      → is_eligible device req.group_id user (new_member req member now) ≡ true
  new-eligible req member now device user of_device binds =
      ground (arith, eq_iff req.device_id device, ==_refl req.group_id)

  -- `approveMembership` adds a row beside the revoked one, and the two tests read different rows: where a
  -- device with a revoked row, its first in the group, is approved again, `canSync` is still false, and
  -- `requireActiveMembership` returns for the device and a user whom the request names, if the group is
  -- active and the caller's own and the device is approved.
  pub readmitted_disagree :
      (r : String) (by : Context) (signature expected : Option String) (decision member : String)
      (now : ℕ) (s s' : Store) (req : RequestRow) (g : GroupRow) (ctx : Context)
      → approve_membership same parse_json trim refuses r by signature expected decision member now
          s
        ≡ ok s'
      → find_request r s.requests ≡ some req
      → find_membership_status req.device_id req.group_id s.members ≡ some revoked
      → (extract_context_subject ctx).device_id ≡ req.device_id
      → binds_user req.user_id (extract_context_subject ctx).user_id ≡ true
      → find_group req.group_id s ≡ some g
      → g.organisation_id ≡ (extract_context_subject ctx).organisation_id
      → g.status ≡ "ACTIVE"
      → is_approved_device (find_device_status req.device_id s.devices) ≡ true
      → (can_sync req.device_id req.group_id s' ≡ false)
        × (require_active_membership ctx req.group_id s' ≡ ok tt)
  unfolding can_sync require_active_membership find_membership_eligibility
  readmitted_disagree r by signature expected decision member now s s' req g ctx e found was_revoked
        of_device binds group_found own active approved =
      let (req', checked, other, after) =
        approve-effect same parse_json trim refuses r by signature expected decision member now s s'
          e in
      let (permitted, found', inside, waiting) =
        check_request-ok same parse_json trim refuses r by s req' checked in
      let same_req : req' ≡ req = some_injective (sym found' ∙ found) in
      let members : s'.members ≡ s.members ++ new_member req member now ∷ [] =
        rw after (rw same_req refl) in
      let subject = extract_context_subject ctx in
      let (x, hit) =
        found_at_last (is_eligible subject.device_id req.group_id subject.user_id) s.members
          (new_member req member now)
          (new-eligible req member now subject.device_id subject.user_id of_device binds) in
      let first =
        still_first req.device_id req.group_id s.members (new_member req member now) was_revoked in
      let groups : find_group req.group_id s' ≡ some g = rw after group_found in
      let devices : s'.devices ≡ s.devices = rw after refl in
      let devices' : is_approved_device (find_device_status subject.device_id s'.devices) ≡ true =
        rw (of_device, devices) approved in
      let first' : find_membership_status req.device_id req.group_id s'.members ≡ some revoked =
        rw members first in
      let hit' : find (is_eligible subject.device_id req.group_id subject.user_id) s'.members
          ≡ some x =
        rw members hit in
      (
        ground arith,
        ground (arith, eq_iff g.organisation_id subject.organisation_id, eq_iff g.status "ACTIVE"),
      )
