-- ===== src/Groups/Effects.antt =====
-- What the calls of SyncGroupService did where they return.
use tauri_boilerplate.Base.{
  ℕ, ◌≡◌, Bool, true, false, ◌==◌, string_eq, String, Option, none, some, [], ◌∷◌, ◌++◌, ok,
  update_where, arith, any, Result-cases, inl, inr,
}
use tauri_boilerplate.Authorization.Engine.{Json}
use tauri_boilerplate.Groups.Tables.{
  RequestStatus, pending, RequestRow, DecisionRow, Store, find_request, is_pending, accepted,
  refused, is_member_of,
}
use tauri_boilerplate.Groups.Context.{
  Context, Statement, acting_user, add_decision, add_member, decide_request, new_member,
  require_group_organisation, revoke_row, is_other_device,
}
use tauri_boilerplate.Groups.Service.{
  approve_membership, require_permission, check_request, admit_member, reject_membership,
  revoke_membership, request_membership, create_group,
}

-- The row that `requestMembership` inserts, and the decisions of `approveMembership` and
-- `rejectMembership`.
abbrev pub request_row : (group device : String) → Option String → String → ℕ → RequestRow
request_row group device user id now = record {
  id = id;
  device_id = device;
  group_id = group;
  user_id = user;
  requested_at = now;
  status = pending;
}

abbrev pub decision_row :
    String → String → Context → RequestStatus → ℕ → Option String → DecisionRow
decision_row id request ctx verdict now signature = record {
  id = id;
  request_id = request;
  decided_by = acting_user ctx;
  decision = verdict;
  decided_at = now;
  signature = signature;
}

module _ {Value : Type 0} (same : Value → Value → Bool) (parse_json : String → Option (Json Value))
    (trim : String → String) (refuses : Statement → Store → Bool) where
  pub check_request-ok :
      (request : String) (ctx : Context) (s : Store) (req : RequestRow)
      → check_request same parse_json trim refuses request ctx s ≡ ok req
      → (require_permission same parse_json trim refuses ctx "sync.manage" s ≡ ok tt)
        × (find_request request s.requests ≡ some req)
        × (require_group_organisation req.group_id ctx s ≡ ok tt)
        × (is_pending req.status ≡ true)
  unfolding check_request
  check_request-ok request ctx s req h = ground arith

  admit_member-ok :
      (req : RequestRow) (d : DecisionRow) (member : String) (now : ℕ) (s s' : Store)
      → admit_member same parse_json trim refuses req d member now s ≡ ok s'
      → s'
        ≡ add_member
            (new_member req member now)
            (decide_request d.request_id accepted (add_decision d s))
  unfolding admit_member
  admit_member-ok req d member now s s' h = ground arith

  pub approve-effect :
      (request : String) (ctx : Context) (signature expected : Option String)
      (decision member : String) (now : ℕ) (s s' : Store)
      → approve_membership same parse_json trim refuses request ctx signature expected decision
          member now s
        ≡ ok s'
      → (req : RequestRow) × (check_request same parse_json trim refuses request ctx s ≡ ok req)
        × (is_other_device expected req.device_id ≡ false)
        × (s'
            ≡ add_member (new_member req member now) (
                decide_request request accepted
                  (add_decision (decision_row decision request ctx accepted now signature) s)))
  unfolding approve_membership
  approve-effect request ctx signature expected decision member now s s' h =
      elim (Result-cases (check_request same parse_json trim refuses request ctx s)) [
        | inr (e, failed) ↦ absurd (ground arith)
        | inl (req, checked) ↦ (
          req,
          checked,
          ground arith,
          ground (
            arith,
            admit_member-ok req (decision_row decision request ctx accepted now signature) member
                now s s',
          ),
        )
      ]

  pub reject-effect :
      (request : String) (ctx : Context) (decision : String) (now : ℕ) (s s' : Store)
      → reject_membership same parse_json trim refuses request ctx decision now s ≡ ok s'
      → (req : RequestRow) × (check_request same parse_json trim refuses request ctx s ≡ ok req)
        × (s'
            ≡ decide_request request refused
                (add_decision (decision_row decision request ctx refused now none) s))
  unfolding reject_membership
  reject-effect request ctx decision now s s' h =
      elim (Result-cases (check_request same parse_json trim refuses request ctx s)) [
        | inr (e, failed) ↦ absurd (ground arith)
        | inl (req, checked) ↦ (req, checked, ground arith)
      ]

  pub request-effect :
      (group device : String) (user : Option String) (id : String) (now : ℕ) (s s' : Store)
      → request_membership same parse_json trim refuses group device user id now s ≡ ok s'
      → (any (λ (r : RequestRow). r.id == id) s.requests ≡ false)
        × (s' ≡ record s { requests = s.requests ++ request_row group device user id now ∷ [] })
  unfolding request_membership
  request-effect group device user id now s s' h = ground arith

  pub create-effect :
      (name : String) (description : Option String) (organisation : String) (ctx : Context)
      (id : String) (now : ℕ) (s s' : Store)
      → create_group same parse_json trim refuses name description organisation ctx id now s ≡ ok s'
      → (s'.requests ≡ s.requests) × (s'.decisions ≡ s.decisions) × (s'.members ≡ s.members)
  unfolding create_group
  create-effect name description organisation ctx id now s s' h = ground arith

  pub revoke-effect :
      (device group : String) (ctx : Context) (reason revocation : String) (now : ℕ) (s s' : Store)
      → revoke_membership same parse_json trim refuses device group ctx reason revocation now s
        ≡ ok s'
      → (require_permission same parse_json trim refuses ctx "sync.manage" s ≡ ok tt)
        × (require_group_organisation group ctx s ≡ ok tt)
        × (s'.requests ≡ s.requests)
        × (s'.decisions ≡ s.decisions)
        × (s'.members
            ≡ update_where
                (is_member_of device group)
                (revoke_row now (acting_user ctx) reason)
                s.members)
  unfolding revoke_membership
  revoke-effect device group ctx reason revocation now s s' h = ground arith
