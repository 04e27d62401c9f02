-- ===== src/Authorization/Require.antt =====
-- `require` and `requireForSubject` of AuthorizationEngine.
use tauri_boilerplate.Base.{
  ◌≡◌, ◌≢◌, ◌↔◌, refl, sym, ◌∙◌, subst, Bool, true, ◌==◌, string_eq, ==_iff, String, Option, List,
  [], ◌∷◌, any, filter, map, Dict, ok, arith, Any-mono,
}
use tauri_boilerplate.Authorization.Engine.{
  UserRole, Role, Tables, Subject, AuthorizationDecision, granted, denied, is_assigned, is_role_of,
  find_role_ids, Json, can, or_deny, require, require_for_subject,
}
use tauri_boilerplate.Authorization.Joins.{any_iff, join_iff, and_iff}
use tauri_boilerplate.Authorization.Grants.{HoldsPermission, can-granted_iff}

module _ {ℓ κ} {A : Type ℓ} {B : Type κ} where
  any-map-filter :
      (q : A → Bool) (f : A → B) (xs : List A) → any (λ b. true) (map f (filter q xs)) ≡ any q xs
  any-map-filter q f [] = refl
  any-map-filter q f (x ∷ xs) = ground (arith, any-map-filter q f xs)

module _ {Value : Type 0} (same : Value → Value → Bool)
    (parse_json : String → Option (Json Value)) where
  -- A user who holds a permission in an organisation has a role there.
  HoldsPermission-role :
      (db : Tables) (user org permission : String) (resource : Option (Dict Value))
      → HoldsPermission same parse_json db user org permission resource
      → find_role_ids user org db ≢ []
  unfolding find_role_ids
  HoldsPermission-role db user org permission resource h e =
      let assigned = λ (ur : UserRole).
        and_iff (ur.user_id == user) (ur.organisation_id == org) (==_iff ur.user_id user)
          (==_iff ur.organisation_id org) in
      let role_ids =
        λ (ur : UserRole). map (λ (r : Role). ur.role_id) (filter (is_role_of ur) db.roles) in
      let of_role = λ (ur : UserRole) (r : Role).
        and_iff (r.id == ur.role_id) (r.organisation_id == ur.organisation_id)
          (==_iff r.id ur.role_id) (==_iff r.organisation_id ur.organisation_id) in
      let found =
        join_iff (λ (i : String). true) (is_assigned user org) role_ids assigned
          (λ ur.
            let step = any-map-filter (is_role_of ur) (λ (r : Role). ur.role_id) db.roles in
            let inner = any_iff (is_role_of ur) (of_role ur) db.roles in
            (λ k. inner.0 (sym step ∙ k), λ k. step ∙ inner.1 k))
          db.user_roles in
      let some_id = found.1 (
        Any-mono (λ ur (here, roles). (here, Any-mono (λ r (on, rest). on) db.roles roles))
          db.user_roles h) in
      let none_id = subst (λ ids. any (λ (i : String). true) ids ≡ true) e some_id in cc

  pub allowed_iff :
      (d : AuthorizationDecision) → (or_deny same parse_json d ≡ ok tt) ↔ (d ≡ granted)
  allowed_iff granted = (λ h. refl, λ h. refl)
  allowed_iff (denied code) = (λ h. cc, λ h. cc)

  -- `requireForSubject`, which reads the roles itself, returns exactly where the tables say that the user
  -- holds the permission for the resource in the organisation; otherwise it throws.
  pub require_for_subject-ok_iff :
      (user org permission : String) (resource : Option (Dict Value)) (db : Tables)
      → (require_for_subject same parse_json user org permission resource db ≡ ok tt)
        ↔ HoldsPermission same parse_json db user org permission resource
  unfolding require_for_subject require
  require_for_subject-ok_iff user org permission resource db =
      let subject : Subject = record {
        user_id = user;
        organisation_id = org;
        roles = find_role_ids user org db;
      } in
      let allowed = allowed_iff (can same parse_json subject permission resource db) in
      let granted_when = can-granted_iff same parse_json subject permission resource db in
      (
        λ h. (granted_when.0 (allowed.0 h)).1,
        λ h. allowed.1 (granted_when.1 (HoldsPermission-role db user org permission resource h, h)),
      )
