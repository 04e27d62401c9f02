-- ===== src/Identity/Tests.antt =====
-- Anna signs in on her phone, and her session is validated.
use tauri_boilerplate.Base.{
  ℕ, ◌≡◌, refl, false, String, none, some, List, [], ◌∷◌, Any, ok, err, some_injective, sym, ◌∙◌,
  sort_by,
}
use tauri_boilerplate.Groups.Tables.{find}
use tauri_boilerplate.Identity.Devices.{
  active, revoked, DeviceStatus, DeviceIdentity, find_by_device_id,
}
use tauri_boilerplate.Identity.Sessions.{
  NativeView, Session, Reads, Drawn, session_of, find_user, check_view, finish_validation,
  validate_current_session, device_status_changed,
}
use tauri_boilerplate.Identity.Established.{
  Event, signs_in, run, Establishes, IsPresent, validated-Establishes,
}

abbrev phone : DeviceStatus → DeviceIdentity
phone status = record {
  id = "d";
  device_id = "phone";
  public_key = "k";
  platform = "android";
  application_id = "app";
  status = status;
  registered_at = 1;
  last_seen_at = none;
  user_id = none;
  is_local = false;
}

abbrev view : NativeView
view = record { user_id = "anna"; device_id = "phone"; organisation_id = "org" }

abbrev reads : Reads
reads = record {
  users = record { id = "anna"; organisation_id = "org"; status = "ACTIVE" } ∷ [];
  devices = phone active ∷ [];
  user_roles = record { user_id = "anna"; organisation_id = "org"; role_id = "writer" } ∷ [];
}

abbrev drawn : Drawn
drawn = record { object = 1; session_id = "s"; now = 1 }

abbrev rank : String → ℕ
rank t = 0

abbrev events : List Event
events = signs_in "anna" "secret" (some view) reads drawn ∷ []

abbrev session : Session
unfolding sort_by
session = session_of rank view reads drawn

signed_in : run rank events none ≡ some session
unfolding run session check_view find_user find find_by_device_id sort_by
signed_in = refl

validated :
    (validate_current_session (some session) (phone active ∷ []) 2 (run rank events none)).0
    ≡ ok session
unfolding validate_current_session finish_validation run session check_view find_user find
    find_by_device_id sort_by
validated = refl

-- The device is revoked meanwhile: the session is gone.
barred :
    validate_current_session (some session) (phone revoked ∷ []) 2 (some session)
    ≡ (err device_status_changed, none)
unfolding validate_current_session finish_validation session find_by_device_id find sort_by
barred = refl

same_object :
    (b c : Session)
    → some session ≡ some b
    → run rank events none ≡ some c
    → c.object ≡ b.object
    → c ≡ b
same_object b c e h object = some_injective (sym h ∙ signed_in ∙ e)

validated-Establishes_example :
    (run rank events none ≡ some session)
    × Any (Establishes rank session) events
    × IsPresent "phone" (phone active ∷ [])
unfolding session
validated-Establishes_example =
    validated-Establishes rank events (some session) (phone active ∷ []) 2 session same_object
      validated
