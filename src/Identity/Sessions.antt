-- ===== src/Identity/Sessions.antt =====
-- UserSessionService of packages/identity/src/user/UserSessionService.ts. Each query of a call has the table
-- as it is when the query runs. A session object is told apart from another by its `object`.
use tauri_boilerplate.Base.{
  ℕ, Bool, true, false, not, ◌&&◌, ◌||◌, ◌==◌, nat_eq, string_eq, ltb, if◌then◌else◌, String,
  Option, none, some, List, map, filter, sort_by, Result, ok, err, ◌>>=◌, ◌>>◌, throw_if, or_throw,
}
use tauri_boilerplate.Authorization.Engine.{UserRole}
use tauri_boilerplate.Groups.Tables.{find}
use tauri_boilerplate.Identity.Devices.{
  DeviceStatus, unregistered, pending_approval, approved, active, suspended, revoked,
  DeviceIdentity, find_by_device_id,
}

-- core_users, as far as the service reads it
pub record UserRow : Type 0 where
  pub id : String
  pub organisation_id : String
  pub status : String

-- What the native side returns for a sign-in.
pub record NativeView : Type 0 where
  pub user_id : String
  pub device_id : String
  pub organisation_id : String

pub record Session : Type 0 where
  pub object : ℕ
  pub session_id : String
  pub user_id : String
  pub device_id : String
  pub organisation_id : String
  pub roles : List String
  pub established_at : ℕ
  pub expires_at : Option ℕ

pub data SessionError : Type 0 where
  missing_fields native_failed restore_unsupported user_inactive org_mismatch : SessionError
  device_invalid no_session session_changed device_status_changed session_expired : SessionError

unfoldable pub find_user : String → List UserRow → Option UserRow
unfolding find
find_user i us = find (λ (u : UserRow). u.id == i) us

-- `status === "APPROVED" || status === "ACTIVE"`
abbrev pub is_usable : DeviceStatus → Bool
is_usable approved = true
is_usable active = true
is_usable unregistered = false
is_usable pending_approval = false
is_usable suspended = false
is_usable revoked = false

-- `user_id !== null && user_id !== …`
abbrev pub is_bound_elsewhere : String → Option String → Bool
is_bound_elsewhere u none = false
is_bound_elsewhere u (some v) = not (v == u)

-- The roles of the user in the organisation; `rank` is a text's place in their order.
abbrev pub roles_of : (rank : String → ℕ) → (user org : String) → List UserRole → List String
roles_of rank user org rows =
    map (λ (r : UserRole). r.role_id)
      (sort_by (λ (r : UserRole). rank r.role_id)
        (filter (λ (r : UserRole). r.user_id == user && r.organisation_id == org) rows))

-- The three tables that establishFromNativeSession reads, each when it reads it.
pub record Reads : Type 0 where
  pub users : List UserRow
  pub devices : List DeviceIdentity
  pub user_roles : List UserRole

-- What the call draws: the object, its id and the time.
pub record Drawn : Type 0 where
  pub object : ℕ
  pub session_id : String
  pub now : ℕ

-- The checks of establishFromNativeSession
unfoldable pub check_view : NativeView → Reads → Result SessionError (Unit {0})
unfolding find_user find_by_device_id
check_view v t = do
  u ← or_throw (find_user v.user_id t.users) user_inactive
  throw_if (not (u.status == "ACTIVE")) user_inactive
  throw_if (not (u.organisation_id == v.organisation_id)) org_mismatch
  d ← or_throw (find_by_device_id v.device_id t.devices) device_invalid
  throw_if (is_bound_elsewhere v.user_id d.user_id || not (is_usable d.status)) device_invalid

abbrev pub session_of : (rank : String → ℕ) → NativeView → Reads → Drawn → Session
session_of rank v t n = record {
  object = n.object;
  session_id = n.session_id;
  user_id = v.user_id;
  device_id = v.device_id;
  organisation_id = v.organisation_id;
  roles = roles_of rank v.user_id v.organisation_id t.user_roles;
  established_at = n.now;
  expires_at = none;
}

-- establishFromNativeSession: the session or what was thrown, and `currentSession` behind it
unfoldable pub establish :
    (rank : String → ℕ) → NativeView → Reads → Drawn → Result SessionError Session × Option Session
unfolding check_view sort_by
establish rank v t n = elim (check_view v t) [
  | ok u ↦ (ok (session_of rank v t n), some (session_of rank v t n))
  | err e ↦ (err e, none)
]

-- authenticate(request, gateway), with what the gateway returned or that it threw
unfoldable pub authenticate :
    (rank : String → ℕ)
    → (user password : String) → Option NativeView
    → Reads
    → Drawn
    → Option Session
    → Result SessionError Session × Option Session
unfolding establish
authenticate rank user password view t n current = elim (user == "" || password == "") [
  | true ↦ (err missing_fields, current)
  | false ↦ elim view [ none ↦ (err native_failed, none) | some v ↦ establish rank v t n ]
]

-- What the gateway has for restoreNativeSession: no such method, no session, or a session.
pub data NativeSession : Type 0 where
  unsupported absent : NativeSession
  present : NativeView → NativeSession

abbrev pub as_optional :
    Result SessionError Session × Option Session
    → Result SessionError (Option Session) × Option Session
as_optional (ok s, c) = (ok (some s), c)
as_optional (err e, c) = (err e, c)

-- restoreNativeSession(gateway)
unfoldable pub restore_native_session :
    (rank : String → ℕ)
    → NativeSession
    → Reads
    → Drawn
    → Option Session
    → Result SessionError (Option Session) × Option Session
unfolding establish
restore_native_session rank unsupported t n current = (err restore_unsupported, current)
restore_native_session rank absent t n current = (ok none, none)
restore_native_session rank (present v) t n current = as_optional (establish rank v t n)

abbrev pub is_barred : Option DeviceIdentity → Bool
is_barred none = true
is_barred (some d) = elim d.status [ revoked ↦ true | suspended ↦ true | _ ↦ false ]

abbrev pub is_expired : ℕ → Option ℕ → Bool
is_expired now none = false
is_expired now (some at) = ltb at now

-- `this.currentSession !== session`
abbrev pub is_replaced : Session → Option Session → Bool
is_replaced s none = true
is_replaced s (some c) = not (c.object == s.object)

-- The part of validateCurrentSession behind its query, for the session with which it began.
unfoldable pub finish_validation :
    Session
    → (device : Option DeviceIdentity) (now : ℕ) → Option Session
    → Result SessionError Session × Option Session
finish_validation s device now current =
    if is_replaced s current
    then (err session_changed, current)
    else if is_barred device
    then (err device_status_changed, none)
    else if is_expired now s.expires_at
    then (err session_expired, none)
    else (ok s, current)

-- validateCurrentSession() from the session at its beginning, the devices that its query finds, and the
-- session behind the query
unfoldable pub validate_current_session :
    (started : Option Session)
    → List DeviceIdentity
    → (now : ℕ) → Option Session
    → Result SessionError Session × Option Session
unfolding find_by_device_id finish_validation
validate_current_session none ds now current = (err no_session, current)
validate_current_session (some s) ds now current =
    finish_validation s (find_by_device_id s.device_id ds) now current

-- logout(gateway), whose gateway may throw before the session is gone
unfoldable pub logout : (thrown : Bool) → Option Session → Option Session
logout true current = current
logout false current = none
