-- ===== src/Groups/Revoked.antt =====
-- A revoked device may neither sync nor write until a request of its own is approved again.
use tauri_boilerplate.Base.{
  ℕ, ◌≡◌, ◌≢◌, refl, sym, subst, Bool, true, false, ◌&&◌, ◌==◌, string_eq, String, Option, none,
  some, List, [], ◌∷◌, ok, arith, All, All-update_keep, All-update_where, All-append, Option-cases,
  Bool-cases, some_injective, inl, inr,
}
use tauri_boilerplate.Authorization.Engine.{Json}
use tauri_boilerplate.Groups.Tables.{
  is_admitted, RequestRow, MemberRow, Store, find, find_request, is_member_of, is_eligible,
  find_membership_status, find_membership_eligibility,
}
use tauri_boilerplate.Groups.Context.{
  Context, Statement, extract_context_subject, revoke_row, acting_user, not_admitted,
}
use tauri_boilerplate.Groups.Service.{revoke_membership}
use tauri_boilerplate.Groups.Access.{can_sync, require_active_membership}
use tauri_boilerplate.Groups.Calls.{
  Call, create, request, approve, revoke, reject, run, perform, perform_all, perform-keep,
}
use tauri_boilerplate.Groups.Effects.{
  check_request-ok, approve-effect, reject-effect, request-effect, create-effect, revoke-effect,
}

-- No row of the device in the group admits it.
abbrev pub IsBlocked : String → String → MemberRow → Type 0
IsBlocked device group m = is_member_of device group m ≡ true → is_admitted m.status ≡ false

abbrev pub Blocked : String → String → Store → Type 0
Blocked device group s = All (IsBlocked device group) s.members

module _ {ℓ κ} {Row : Type ℓ} (P : Row → Type κ) (p : Row → Bool) where
  pub find-found :
      (rows : List Row) (r : Row) → find p rows ≡ some r → All P rows → (p r ≡ true) × P r
  unfolding find
  find-found [] r e h = cc
  find-found (x ∷ rows) r e (px, h) = elim (Bool-cases (p x)) [
    | inl yes' ↦
        let same : x ≡ r = some_injective (rw yes' at e) in
        (subst (λ y. p y ≡ true) same yes', subst P same px)
    | inr no' ↦ find-found rows r (rw no' at e) h
  ]

module _ (device group : String) where
  Blocked-status :
      (ms : List MemberRow)
      → All (IsBlocked device group) ms
      → not_admitted (find_membership_status device group ms) ≡ true
  unfolding find_membership_status
  Blocked-status ms h = elim (Option-cases (find (is_member_of device group) ms)) [
    | inl e ↦ rw (e, find_membership_status) refl
    | inr (m, e) ↦
        let (hit, out) = find-found (IsBlocked device group) (is_member_of device group) ms m e h in
        rw (e, find_membership_status) (ground (arith, out hit))
  ]

  Blocked-can_sync : (s : Store) → Blocked device group s → can_sync device group s ≡ false
  unfolding can_sync
  Blocked-can_sync s h = ground (arith, Blocked-status s.members h)

  Blocked-eligible :
      (user : Option String) (ms : List MemberRow)
      → All (IsBlocked device group) ms
      → find (is_eligible device group user) ms ≡ none
  Blocked-eligible user ms h = elim (Option-cases (find (is_eligible device group user) ms)) [
    | inl e ↦ e
    | inr (m, e) ↦
        let (hit, out) =
          find-found (IsBlocked device group) (is_eligible device group user) ms m e h in
        absurd (ground (arith, out))
  ]

  Blocked-require :
      (ctx : Context) (s : Store)
      → (extract_context_subject ctx).device_id ≡ device
      → Blocked device group s
      → require_active_membership ctx group s ≢ ok tt
  unfolding require_active_membership find_membership_eligibility
  Blocked-require ctx s of_device h e =
      let subject = extract_context_subject ctx in
      let none' : find (is_eligible subject.device_id group subject.user_id) s.members ≡ none =
        rw of_device (Blocked-eligible subject.user_id s.members h) in
      ground arith

  -- The call approves no request of the device for the group.
  abbrev pub Spares : Call → Store → Type 0
  Spares (create name description organisation ctx id now) s = Unit
  Spares (request g d user id now) s = Unit
  Spares (approve r ctx signature expected decision member now) s =
      (req : RequestRow)
      → find_request r s.requests ≡ some req
      → (req.device_id == device && req.group_id == group) ≡ false
  Spares (revoke d g ctx reason revocation now) s = Unit
  Spares (reject r ctx decision now) s = Unit

module _ {Value : Type 0} (same : Value → Value → Bool) (parse_json : String → Option (Json Value))
    (trim : String → String) (refuses : Statement → Store → Bool) (device group : String) where
  -- Each call spares the device in the state that it meets.
  abbrev pub SparesAll : List Call → Store → Type 0
  SparesAll [] s = Unit
  SparesAll (c ∷ cs) s =
      Spares device group c s × SparesAll cs (perform same parse_json trim refuses c s)

  run-Blocked :
      (c : Call) (s s' : Store)
      → run same parse_json trim refuses c s ≡ ok s'
      → Spares device group c s
      → Blocked device group s
      → Blocked device group s'
  unfolding run
  run-Blocked (create name description organisation ctx id now) s s' e spares h =
      let (r, d, m) =
        create-effect same parse_json trim refuses name description organisation ctx id now s s'
          e in
      rw m h
  run-Blocked (request g d user id now) s s' e spares h =
      let (unused, after) = request-effect same parse_json trim refuses g d user id now s s' e in
      subst (Blocked device group) (sym after) h
  run-Blocked (approve r ctx signature expected decision member now) s s' e spares h =
      let (req, checked, other, after) =
        approve-effect same parse_json trim refuses r ctx signature expected decision member now s
          s' e in
      let (permitted, found, inside, waiting) =
        check_request-ok same parse_json trim refuses r ctx s req checked in
      let apart = spares req found in
      subst (Blocked device group) (sym after)
        (All-append (IsBlocked device group) s.members _ h (λ mine. absurd (ground arith), tt))
  run-Blocked (revoke d g ctx reason revocation now) s s' e spares h =
      let (permitted, inside, r, dd, m) =
        revoke-effect same parse_json trim refuses d g ctx reason revocation now s s' e in
      rw m (
        All-update_keep (IsBlocked device group) (is_member_of d g)
          (revoke_row now (acting_user ctx) reason) (λ x k mine. refl) s.members h)
  run-Blocked (reject r ctx decision now) s s' e spares h =
      let (req, checked, after) =
        reject-effect same parse_json trim refuses r ctx decision now s s' e in
      subst (Blocked device group) (sym after) h

  perform_all-Blocked :
      (calls : List Call) (s : Store)
      → SparesAll calls s
      → Blocked device group s
      → Blocked device group (perform_all same parse_json trim refuses calls s)
  unfolding perform_all
  perform_all-Blocked [] s spares h = h
  perform_all-Blocked (c ∷ cs) s (spares, later) h =
      perform_all-Blocked cs (perform same parse_json trim refuses c s) later (
        perform-keep same parse_json trim refuses (Blocked device group) c s
          (λ s' e. run-Blocked c s s' e spares h) h)

  revoke-Blocked :
      (ctx : Context) (reason revocation : String) (now : ℕ) (s s' : Store)
      → revoke_membership same parse_json trim refuses device group ctx reason revocation now s
        ≡ ok s'
      → Blocked device group s'
  revoke-Blocked ctx reason revocation now s s' e =
      let (permitted, inside, r, d, m) =
        revoke-effect same parse_json trim refuses device group ctx reason revocation now s s' e in
      rw m (
        All-update_where (IsBlocked device group) (is_member_of device group)
          (revoke_row now (acting_user ctx) reason) (λ x hit mine. refl) (λ x miss mine. cc)
          s.members)

  -- Behind a revocation that returned, and whatever calls follow that approve no request of the device for
  -- the group, `canSync` is false and `requireActiveMembership` throws, also for a user of the device whom
  -- another row of the group named.
  pub revoked_stays_out :
      (by : Context) (reason revocation : String) (now : ℕ) (s s' : Store) (calls : List Call)
      (ctx : Context)
      → revoke_membership same parse_json trim refuses device group by reason revocation now s
        ≡ ok s'
      → SparesAll calls s'
      → (extract_context_subject ctx).device_id ≡ device
      → let t = perform_all same parse_json trim refuses calls s' in
        (can_sync device group t ≡ false) × (require_active_membership ctx group t ≢ ok tt)
  revoked_stays_out by reason revocation now s s' calls ctx e spares of_device =
      let out =
        perform_all-Blocked calls s' spares (revoke-Blocked by reason revocation now s s' e) in
      let t = perform_all same parse_json trim refuses calls s' in
      (Blocked-can_sync device group t out, Blocked-require device group ctx t of_device out)
