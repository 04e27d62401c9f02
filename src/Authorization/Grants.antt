-- ===== src/Authorization/Grants.antt =====
-- When the authorization engine grants: an independent description of the decision.
use tauri_boilerplate.Base.{
  ◌≡◌, ◌≢◌, ◌↔◌, ◌⊎◌, inl, inr, refl, sym, ap, ◌∙◌, subst, Bool, true, false, not, ◌&&◌, ◌||◌, ◌==◌,
  string_eq, ==_iff, if◌then◌else◌, String, Option, none, some, List, [], ◌∷◌, any, filter, Dict,
  get, arith, All, Any, Bool-cases,
}
use tauri_boilerplate.Authorization.Joins.{and_iff, or_iff, one_iff, join_iff}
use tauri_boilerplate.Authorization.Scope.{is_value, all_match, matches}
use tauri_boilerplate.Authorization.Engine.{
  UserRole, Role, RolePermission, Permission, Tables, Subject, granted, denied, no_matching_role,
  permission_not_granted, scope_mismatch, EffectivePermissionRow, is_assigned, is_role_of,
  find_effective_permissions, Json, object, other, from_json, GrantedPermission, read_constraints,
  push_grant, read_grants, get_effective_permissions, is_for, is_empty, can,
}

module _ {Value : Type 0} (same : Value → Value → Bool)
    (parse_json : String → Option (Json Value)) where
  -- Every constraint has its value in the requested scope.
  abbrev pub Matches : Dict Value → Option (Dict Value) → Type 0
  Matches cs none = cs ≡ []
  Matches cs (some scope) =
      All (λ (c : String × Value). is_value same (get c.0 scope) c.1 ≡ true) cs

  -- The constraints of a role's permission allow the resource: there are none, or they are the JSON text
  -- of an object that the resource matches.
  abbrev pub Allows : Option String → Option (Dict Value) → Type 0
  Allows none resource = Unit
  Allows (some json) resource =
      (cs : Dict Value) × (parse_json json ≡ some (object cs)) × Matches cs resource

  -- Some role that the user has in the organisation, of that organisation, holds a permission of the name
  -- or of every name, under constraints that allow the resource.
  abbrev pub HoldsPermission : Tables → (user org : String) → String → Option (Dict Value) → Type 0
  HoldsPermission db user org permission resource =
      Any
        (λ (ur : UserRole).
          ((ur.user_id ≡ user) × (ur.organisation_id ≡ org))
          × Any
              (λ (r : Role).
                ((r.id ≡ ur.role_id) × (r.organisation_id ≡ ur.organisation_id))
                × Any
                    (λ (rp : RolePermission).
                      (rp.role_id ≡ r.id)
                      × Any
                          (λ (p : Permission).
                            (rp.permission_id ≡ p.id)
                            × (((p.name ≡ permission) ⊎ (p.name ≡ "*"))
                                × Allows rp.scope_constraints_json resource))
                          db.permissions)
                    db.role_permissions)
              db.roles)
        db.user_roles

  object_injective : {a b : Dict Value} → Path (Json Value) (object a) (object b) → a ≡ b
  object_injective h = cc

  some_injective : {a b : Json Value} → Path (Option (Json Value)) (some a) (some b) → a ≡ b
  some_injective h = cc

  -- The test that one row of the join passes, on its constraints.
  abbrev constraints_grant : Bool → Option (Dict Value) → Option (Option (Dict Value)) → Bool
  constraints_grant named resource none = false
  constraints_grant named resource (some cs) = named && matches same cs resource

  abbrev row_grants : String → Option (Dict Value) → EffectivePermissionRow → Bool
  row_grants permission resource row =
      constraints_grant (row.permission_name == permission || row.permission_name == "*") resource
        (read_constraints same parse_json row.scope_constraints_json)

  any-push :
      (permission name : String) (resource : Option (Dict Value)) (o : Option (Option (Dict Value)))
      (gs : List (GrantedPermission Value))
      → any
          (λ g. matches same g.scope_constraints resource)
          (filter (is_for same parse_json permission) (push_grant same parse_json name o gs))
        ≡ (constraints_grant (name == permission || name == "*") resource o
            || any
                (λ g. matches same g.scope_constraints resource)
                (filter (is_for same parse_json permission) gs))
  any-push permission name resource none gs = refl
  any-push permission name resource (some cs) gs =
      elim (Bool-cases (name == permission || name == "*")) [
        | inl e ↦ rw e refl
        | inr e ↦ rw e refl
      ]

  any-grants :
      (permission : String) (resource : Option (Dict Value)) (rows : List EffectivePermissionRow)
      → any
          (λ g. matches same g.scope_constraints resource)
          (filter (is_for same parse_json permission) (read_grants same parse_json rows))
        ≡ any (row_grants permission resource) rows
  unfolding read_grants
  any-grants permission resource [] = refl
  any-grants permission resource (row ∷ rows) =
      any-push permission row.permission_name resource
        (read_constraints same parse_json row.scope_constraints_json)
        (read_grants same parse_json rows)
      ∙ ap (λ b. row_grants permission resource row || b) (any-grants permission resource rows)

  all_match_iff :
      (cs scope : Dict Value)
      → (all_match same cs scope ≡ true)
        ↔ All (λ (c : String × Value). is_value same (get c.0 scope) c.1 ≡ true) cs
  unfolding all_match
  all_match_iff [] scope = (λ h. tt, λ h. refl)
  all_match_iff ((k, v) ∷ cs) scope =
      let rest = all_match_iff cs scope in
      (
        λ h. (ground arith, rest.0 (ground arith)),
        λ (own, others). let rest' = rest.1 others in ground arith,
      )

  matches_iff :
      (cs : Dict Value) (resource : Option (Dict Value))
      → (matches same (some cs) resource ≡ true) ↔ Matches cs resource
  unfolding matches
  matches_iff [] none = (λ h. refl, λ h. refl)
  matches_iff [] (some scope) = (λ h. tt, λ h. refl)
  matches_iff (c ∷ cs) none = (λ h. cc, λ h. cc)
  matches_iff (c ∷ cs) (some scope) = all_match_iff (c ∷ cs) scope

  json_iff :
      (named : Bool) (o : Option (Json Value)) (resource : Option (Dict Value))
      → (constraints_grant named resource (from_json same parse_json o) ≡ true)
        ↔ ((named ≡ true) × ((cs : Dict Value) × (o ≡ some (object cs)) × Matches cs resource))
  json_iff named none resource = (λ h. cc, λ (h, (cs, e, k)). cc)
  json_iff named (some other) resource = (λ h. cc, λ (h, (cs, e, k)). cc)
  json_iff named (some (object cs)) resource = (
    λ h. (ground arith, (cs, refl, (matches_iff cs resource).0 (ground arith))),
    λ (h, (ds, e, k)).
        let k' =
          (matches_iff cs resource).1
            (subst (λ ds. Matches ds resource) (object_injective (some_injective (sym e))) k) in
        ground arith,
  )

  constraints_iff :
      (named : Bool) (json : Option String) (resource : Option (Dict Value))
      → (constraints_grant named resource (read_constraints same parse_json json) ≡ true)
        ↔ ((named ≡ true) × Allows json resource)
  unfolding matches
  constraints_iff named none resource = (λ h. (ground arith, tt), λ (h, k). ground arith)
  constraints_iff named (some json) resource = json_iff named (parse_json json) resource

  row_iff :
      (permission : String) (resource : Option (Dict Value)) (rp : RolePermission) (p : Permission)
      → (row_grants permission resource (record {
        permission_name = p.name;
        scope_constraints_json = rp.scope_constraints_json;
      })
          ≡ true)
        ↔ (((p.name ≡ permission) ⊎ (p.name ≡ "*")) × Allows rp.scope_constraints_json resource)
  row_iff permission resource rp p =
      let named =
        or_iff (p.name == permission) (p.name == "*") (==_iff p.name permission)
          (==_iff p.name "*") in
      let row =
        constraints_iff (p.name == permission || p.name == "*") rp.scope_constraints_json
          resource in
      (λ h. (named.0 (row.0 h).0, (row.0 h).1), λ (n, k). row.1 (named.1 n, k))

  -- The join of `findEffectivePermissions` has a row that grants exactly where the tables say so.
  rows_iff :
      (db : Tables) (user org permission : String) (resource : Option (Dict Value))
      → (any (row_grants permission resource) (find_effective_permissions user org db) ≡ true)
        ↔ HoldsPermission db user org permission resource
  unfolding find_effective_permissions
  rows_iff db user org permission resource =
      let grants = row_grants permission resource in
      join_iff grants (is_assigned user org) _
        (λ ur.
          and_iff (ur.user_id == user) (ur.organisation_id == org) (==_iff ur.user_id user)
            (==_iff ur.organisation_id org))
        (λ ur.
          join_iff grants (is_role_of ur) _
            (λ r.
              and_iff (r.id == ur.role_id) (r.organisation_id == ur.organisation_id)
                (==_iff r.id ur.role_id) (==_iff r.organisation_id ur.organisation_id))
            (λ r.
              join_iff grants (λ rp. rp.role_id == r.id) _ (λ rp. ==_iff rp.role_id r.id)
                (λ rp.
                  join_iff grants (λ p. rp.permission_id == p.id) _
                    (λ p. ==_iff rp.permission_id p.id)
                    (λ p. one_iff grants _ (row_iff permission resource rp p)) db.permissions)
                db.role_permissions)
            db.roles)
        db.user_roles

  decision_iff :
      (roles : List String) (m : GrantedPermission Value → Bool)
      (gs : List (GrantedPermission Value))
      → ((if is_empty same parse_json roles
            then denied no_matching_role
            else if is_empty same parse_json gs
            then denied permission_not_granted
            else if not (any m gs)
            then denied scope_mismatch
            else granted)
          ≡ granted)
        ↔ ((roles ≢ []) × (any m gs ≡ true))
  decision_iff [] m gs = (λ h. cc, λ (h, k). absurd (h refl))
  decision_iff (x ∷ roles) m [] = (λ h. cc, λ (h, k). cc)
  decision_iff (x ∷ roles) m (g ∷ gs) = (λ h. (λ e. cc, ground arith), λ (h, k). ground arith)

  -- `can` grants exactly where the subject has a role at all and the tables say that the user holds the
  -- permission for the resource: a constraint that is not the JSON text of an object grants nothing, and
  -- no assignment or role of another organisation counts.
  pub can-granted_iff :
      (subject : Subject) (permission : String) (resource : Option (Dict Value)) (db : Tables)
      → (can same parse_json subject permission resource db ≡ granted) ↔ (
          (subject.roles ≢ [])
          × HoldsPermission db subject.user_id subject.organisation_id permission resource)
  unfolding can get_effective_permissions
  can-granted_iff subject permission resource db =
      let decision =
        decision_iff subject.roles (λ g. matches same g.scope_constraints resource)
          (filter (is_for same parse_json permission)
            (get_effective_permissions same parse_json subject db)) in
      let rows = find_effective_permissions subject.user_id subject.organisation_id db in
      let holds = rows_iff db subject.user_id subject.organisation_id permission resource in
      let same_test = any-grants permission resource rows in
      (
        λ h. ((decision.0 h).0, holds.0 (sym same_test ∙ (decision.0 h).1)),
        λ (some_role, h). decision.1 (some_role, same_test ∙ holds.1 h),
      )
