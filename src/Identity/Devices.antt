-- ===== src/Identity/Devices.antt =====
-- DeviceIdentityService and DeviceIdentityRepository of packages/identity/src/device. The table core_devices is
-- a list of rows with its primary key and its unique device ids.
use tauri_boilerplate.Base.{
  ℕ, Bool, true, false, not, ◌||◌, ◌==◌, string_eq, String, Option, none, some, List, [], ◌∷◌, ◌++◌,
  any, Result, ok, ◌>>◌, throw_if, is_blank, truthy, update_where,
}
use tauri_boilerplate.Groups.Tables.{find}

pub data DeviceStatus : Type 0 where
  unregistered pending_approval approved active suspended revoked : DeviceStatus

pub record DeviceIdentity : Type 0 where
  pub id : String
  pub device_id : String
  pub public_key : String
  pub platform : String
  pub application_id : String
  pub status : DeviceStatus
  pub registered_at : ℕ
  pub last_seen_at : Option ℕ
  pub user_id : Option String
  pub is_local : Bool

pub data DeviceError : Type 0 where
  identity_conflict user_conflict key_missing refused_by_database not_found : DeviceError

pub record RegisterDeviceOptions : Type 0 where
  pub public_key : String
  pub platform : String
  pub application_id : String
  pub user_id : Option String
  pub device_id : Option String

-- findLocal()
unfoldable pub find_local : List DeviceIdentity → Option DeviceIdentity
unfolding find
find_local ds = find (λ (d : DeviceIdentity). d.is_local) ds

-- findByDeviceId(deviceId), which getDeviceById passes on
unfoldable pub find_by_device_id : String → List DeviceIdentity → Option DeviceIdentity
unfolding find
find_by_device_id i ds = find (λ (d : DeviceIdentity). d.device_id == i) ds

-- `requestedDeviceId ? … : …`
abbrev pub find_existing : Option String → List DeviceIdentity → Option DeviceIdentity
unfolding find_local find_by_device_id
find_existing none ds = find_local ds
find_existing (some i) ds = find_by_device_id i ds

-- Both users are given and differ.
abbrev pub is_other_user : Option String → Option String → Bool
is_other_user none v = false
is_other_user (some u) none = false
is_other_user (some u) (some v) = not (u == v)

-- `requestedDeviceId ?? generateCorrelationId("dev")`
abbrev pub id_or : String → Option String → String
id_or fresh none = fresh
id_or fresh (some i) = i

abbrev pub is_absent : Option String → Bool
is_absent none = true
is_absent (some i) = false

-- What registerDevice does with the row that it found, or with none.
unfoldable pub register_found :
    RegisterDeviceOptions
    → (id device_id : String) (now : ℕ) → List DeviceIdentity
    → Option DeviceIdentity
    → Result DeviceError (List DeviceIdentity)
unfolding is_blank
register_found o id fresh now ds (some d) = do
  throw_if (not (d.public_key == o.public_key)) identity_conflict
  throw_if (is_other_user (truthy o.user_id) (truthy d.user_id)) user_conflict
  ok ds
register_found o id fresh now ds none = do
  throw_if (is_blank o.public_key) key_missing
  throw_if (any (λ (d : DeviceIdentity). d.id == id || d.device_id == id_or fresh o.device_id) ds)
      refused_by_database
  ok (
      ds
      ++ record {
        id = id;
        device_id = id_or fresh o.device_id;
        public_key = o.public_key;
        platform = o.platform;
        application_id = o.application_id;
        status = unregistered;
        registered_at = now;
        last_seen_at = some now;
        user_id = o.user_id;
        is_local = is_absent o.device_id;
      }
        ∷ [])

-- registerDevice(options)
unfoldable pub register_device :
    RegisterDeviceOptions
    → (id device_id : String) (now : ℕ) → List DeviceIdentity
    → Result DeviceError (List DeviceIdentity)
unfolding find_existing register_found
register_device o id fresh now ds =
    register_found o id fresh now ds (find_existing (truthy o.device_id) ds)

-- updateDeviceStatus(deviceId, newStatus)
unfoldable pub update_device_status :
    String → DeviceStatus → List DeviceIdentity → Result DeviceError (List DeviceIdentity)
update_device_status i status ds = do
  throw_if (not (any (λ (d : DeviceIdentity). d.device_id == i) ds)) not_found
  ok (
      update_where (λ (d : DeviceIdentity). d.device_id == i) (λ d. record d { status = status })
        ds)
