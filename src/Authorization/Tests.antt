-- ===== src/Authorization/Tests.antt =====
-- Runs of the authorization engine. A scope's values are texts, and "{}" and "shop" are the JSON texts
-- of objects.
use tauri_boilerplate.Base.{
  ◌≡◌, ◌≢◌, ◌↔◌, refl, Bool, ◌==◌, string_eq, if◌then◌else◌, String, Option, none, some, [], ◌∷◌,
  Dict, err,
}
use tauri_boilerplate.Authorization.Engine.{
  Tables, Subject, granted, denied, scope_mismatch, permission_not_granted, no_matching_role, Json,
  object, other, can, require_for_subject, find_role_ids, concat_map,
}
use tauri_boilerplate.Authorization.Grants.{HoldsPermission, can-granted_iff}

abbrev same : String → String → Bool
same v w = v == w

abbrev parse_json : String → Option (Json String)
parse_json s =
    if s == "{}"
    then some (object [])
    else if s == "shop"
    then some (object (("location", "shop") ∷ []))
    else if s == "[]"
    then some other
    else none

abbrev tables : Tables
tables = record {
  user_roles =
      record { user_id = "u"; organisation_id = "org"; role_id = "clerk" }
      ∷ record { user_id = "u"; organisation_id = "rival"; role_id = "clerk" }
      ∷ record { user_id = "v"; organisation_id = "org"; role_id = "guest" }
      ∷ [];
  roles =
      record { id = "clerk"; organisation_id = "org" }
      ∷ record { id = "guest"; organisation_id = "org" }
      ∷ [];
  role_permissions =
      record { role_id = "clerk"; permission_id = "p1"; scope_constraints_json = some "shop" }
      ∷ record { role_id = "guest"; permission_id = "p1"; scope_constraints_json = some "[]" }
      ∷ [];
  permissions = record { id = "p1"; name = "stock.edit" } ∷ [];
}

abbrev clerk : String → Subject
clerk org = record { user_id = "u"; organisation_id = org; roles = "clerk" ∷ [] }

abbrev at : String → Option (Dict String)
at l = some (("location", l) ∷ [])

decisions :
    (can same parse_json (clerk "org") "stock.edit" (at "shop") tables ≡ granted)
    × (can same parse_json (clerk "org") "stock.edit" (at "depot") tables ≡ denied scope_mismatch)
    × (can same parse_json (clerk "org") "stock.edit" none tables ≡ denied scope_mismatch)
    × (can same parse_json (clerk "rival") "stock.edit" (at "shop") tables
        ≡ denied permission_not_granted)
    × (require_for_subject same parse_json "v" "org" "stock.edit" none tables
        ≡ err permission_not_granted)
    × (require_for_subject same parse_json "w" "org" "stock.edit" none tables
        ≡ err no_matching_role)
unfolding can require_for_subject find_role_ids concat_map
decisions = (refl, refl, refl, refl, refl, refl)

can-granted_iff_example :
    (can same parse_json (clerk "org") "stock.edit" (at "shop") tables ≡ granted) ↔ (
      ((clerk "org").roles ≢ [])
      × HoldsPermission same parse_json tables "u" "org" "stock.edit" (at "shop"))
can-granted_iff_example =
    can-granted_iff same parse_json (clerk "org") "stock.edit" (at "shop") tables
