-- ===== src/Authorization/Engine.antt =====
-- AuthorizationEngine and AuthorizationRepository of packages/authorization/src, on the tables of roles
-- and permissions. `parse_json` is what JSON.parse returns, or nothing where it throws.
use tauri_boilerplate.Base.{
  Bool, true, false, not, ◌&&◌, ◌||◌, ◌==◌, string_eq, if◌then◌else◌, String, Option, none, some,
  List, [], ◌∷◌, ◌++◌, any, filter, map, Dict, Result, ok, err,
}
use tauri_boilerplate.Authorization.Scope.{matches}

pub record UserRole : Type 0 where
  pub user_id : String
  pub organisation_id : String
  pub role_id : String

pub record Role : Type 0 where
  pub id : String
  pub organisation_id : String

pub record RolePermission : Type 0 where
  pub role_id : String
  pub permission_id : String
  pub scope_constraints_json : Option String

pub record Permission : Type 0 where
  pub id : String
  pub name : String

-- core_user_roles, core_roles, core_role_permissions and core_permissions
pub record Tables : Type 0 where
  pub user_roles : List UserRole
  pub roles : List Role
  pub role_permissions : List RolePermission
  pub permissions : List Permission

pub record Subject : Type 0 where
  pub user_id : String
  pub organisation_id : String
  pub roles : List String

pub data AuthorizationDeniedCode : Type 0 where
  no_matching_role permission_not_granted scope_mismatch subject_revoked organisation_mismatch :
      AuthorizationDeniedCode

-- AuthorizationDecision, without the text of the reason
pub data AuthorizationDecision : Type 0 where
  granted : AuthorizationDecision
  denied : AuthorizationDeniedCode → AuthorizationDecision

pub record EffectivePermissionRow : Type 0 where
  pub permission_name : String
  pub scope_constraints_json : Option String

-- The rows that a join gives for each row of its left side.
unfoldable pub concat_map {ℓ κ} : {A : Type ℓ} {B : Type κ} → (A → List B) → List A → List B
concat_map f [] = []
concat_map f (x ∷ xs) = f x ++ concat_map f xs

-- ON and WHERE: the rows under a condition
abbrev pub only {ℓ} : {A : Type ℓ} → Bool → List A → List A
only b xs = if b then xs else []

-- `ur.user_id = ? AND ur.organisation_id = ?`
abbrev pub is_assigned : String → String → UserRole → Bool
is_assigned user org ur = ur.user_id == user && ur.organisation_id == org

-- `r.id = ur.role_id AND r.organisation_id = ur.organisation_id`
abbrev pub is_role_of : UserRole → Role → Bool
is_role_of ur r = r.id == ur.role_id && r.organisation_id == ur.organisation_id

-- findRoleIds
unfoldable pub find_role_ids : String → String → Tables → List String
unfolding concat_map
find_role_ids user org db =
    concat_map
      (λ ur.
        only (is_assigned user org ur)
          (map (λ (r : Role). ur.role_id) (filter (is_role_of ur) db.roles)))
      db.user_roles

-- findEffectivePermissions
unfoldable pub find_effective_permissions : String → String → Tables → List EffectivePermissionRow
unfolding concat_map
find_effective_permissions user org db =
    concat_map
      (λ ur. only (is_assigned user org ur) (
        concat_map
          (λ r. only (is_role_of ur r) (
            concat_map
              (λ rp. only (rp.role_id == r.id) (
                concat_map
                  (λ p. only (rp.permission_id == p.id) (
                    record {
                      permission_name = p.name;
                      scope_constraints_json = rp.scope_constraints_json;
                    }
                    ∷ []))
                  db.permissions))
              db.role_permissions))
          db.roles))
      db.user_roles

-- A parsed JSON text: an object by its entries, or anything else.
pub data Json (Value : Type 0) : Type 0 where
  object : Dict Value → Json Value
  other : Json Value

pub record GrantedPermission (Value : Type 0) : Type 0 where
  pub permission_name : String
  pub scope_constraints : Option (Dict Value)

module _ {Value : Type 0} (same : Value → Value → Bool)
    (parse_json : String → Option (Json Value)) where
  -- The constraints of a row: nothing where the loop skips the row.
  abbrev pub from_json : Option (Json Value) → Option (Option (Dict Value))
  from_json none = none
  from_json (some other) = none
  from_json (some (object cs)) = some (some cs)

  abbrev pub read_constraints : Option String → Option (Option (Dict Value))
  read_constraints none = some none
  read_constraints (some json) = from_json (parse_json json)

  abbrev pub push_grant :
      String
      → Option (Option (Dict Value))
      → List (GrantedPermission Value)
      → List (GrantedPermission Value)
  push_grant name none rest = rest
  push_grant name (some cs) rest = record { permission_name = name; scope_constraints = cs } ∷ rest

  -- The loop of `getEffectivePermissions`.
  unfoldable pub read_grants : List EffectivePermissionRow → List (GrantedPermission Value)
  read_grants [] = []
  read_grants (row ∷ rows) =
      push_grant row.permission_name (read_constraints row.scope_constraints_json)
        (read_grants rows)

  -- getEffectivePermissions
  unfoldable pub get_effective_permissions : Subject → Tables → List (GrantedPermission Value)
  unfolding find_effective_permissions read_grants
  get_effective_permissions subject db =
      read_grants (find_effective_permissions subject.user_id subject.organisation_id db)

  abbrev pub is_for : String → GrantedPermission Value → Bool
  is_for permission g = g.permission_name == permission || g.permission_name == "*"

  abbrev pub is_empty {ℓ} : {A : Type ℓ} → List A → Bool
  is_empty [] = true
  is_empty (x ∷ xs) = false

  -- can(subject, permission, resource)
  unfoldable pub can : Subject → String → Option (Dict Value) → Tables → AuthorizationDecision
  unfolding get_effective_permissions matches
  can subject permission resource db =
      let grants = filter (is_for permission) (get_effective_permissions subject db) in
      if is_empty subject.roles
      then denied no_matching_role
      else if is_empty grants
      then denied permission_not_granted
      else if not (any (λ g. matches same g.scope_constraints resource) grants)
      then denied scope_mismatch
      else granted

  abbrev pub or_deny : AuthorizationDecision → Result AuthorizationDeniedCode (Unit {0})
  or_deny granted = ok tt
  or_deny (denied code) = err code

  -- require
  unfoldable pub require :
      Subject → String → Option (Dict Value) → Tables → Result AuthorizationDeniedCode (Unit {0})
  unfolding can
  require subject permission resource db = or_deny (can subject permission resource db)

  -- requireForSubject: the roles are read from the tables
  unfoldable pub require_for_subject :
      (user org : String)
      → String
      → Option (Dict Value)
      → Tables
      → Result AuthorizationDeniedCode (Unit {0})
  unfolding require find_role_ids
  require_for_subject user org permission resource db =
      require (record { user_id = user; organisation_id = org; roles = find_role_ids user org db })
        permission resource db

-- The principal of a TrustedOperationContext (packages/core).
pub record Principal : Type 0 where
  pub user_id : String
  pub organisation_id : String
  pub roles : List String

module _ {Value : Type 0} (same : Value → Value → Bool)
    (parse_json : String → Option (Json Value)) where
  -- requireTrusted
  unfoldable pub require_trusted :
      Principal → String → Option (Dict Value) → Tables → Result AuthorizationDeniedCode (Unit {0})
  unfolding require
  require_trusted principal permission resource db =
      require same parse_json
        (record {
          user_id = principal.user_id;
          organisation_id = principal.organisation_id;
          roles = principal.roles;
        })
        permission resource db
