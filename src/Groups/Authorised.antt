-- ===== src/Groups/Authorised.antt =====
-- Who manages a sync group: the permission "sync.manage" in the group's own organisation.
use tauri_boilerplate.Base.{
  ℕ, ◌≡◌, refl, sym, subst, Bool, ◌==◌, string_eq, eq_iff, String, Option, none, some, Result, ok,
  err, arith, Option-cases, inl, inr, Bool-cases,
}
use tauri_boilerplate.Authorization.Engine.{
  Json, require, require_trusted, require_for_subject, can, Subject, AuthorizationDeniedCode,
}
use tauri_boilerplate.Authorization.Grants.{HoldsPermission, can-granted_iff}
use tauri_boilerplate.Authorization.Require.{require_for_subject-ok_iff, allowed_iff}
use tauri_boilerplate.Groups.Tables.{GroupRow, RequestRow, Store, find_group, find_request}
use tauri_boilerplate.Groups.Context.{
  Context, operation, trusted, Statement, denied_as, extract_context_subject,
  require_group_organisation,
}
use tauri_boilerplate.Groups.Service.{require_permission, create_group}
use tauri_boilerplate.Groups.Calls.{Call, create, request, approve, revoke, reject, run}
use tauri_boilerplate.Groups.Effects.{
  check_request-ok, approve-effect, reject-effect, revoke-effect,
}

denied_as-ok : (r : Result AuthorizationDeniedCode (Unit {0})) → denied_as r ≡ ok tt → r ≡ ok tt
denied_as-ok (ok tt) h = refl
denied_as-ok (err e) h = cc

group-organisation :
    (group : String) (ctx : Context) (s : Store)
    → require_group_organisation group ctx s ≡ ok tt
    → (g : GroupRow) × (find_group group s ≡ some g)
      × (g.organisation_id ≡ (extract_context_subject ctx).organisation_id)
unfolding require_group_organisation
group-organisation group ctx s h = elim (Option-cases (find_group group s)) [
  | inl e ↦ absurd (ground arith)
  | inr (g, e) ↦
      (g, e, ground (arith, eq_iff g.organisation_id (extract_context_subject ctx).organisation_id))
]

module _ {Value : Type 0} (same : Value → Value → Bool) (parse_json : String → Option (Json Value))
    (trim : String → String) (refuses : Statement → Store → Bool) where
  -- The caller acts for a user who holds "sync.manage" in the organisation, for resources of any scope.
  abbrev pub Manages : Context → String → Store → Type 0
  Manages ctx org s =
      (user : String) × ((extract_context_subject ctx).user_id ≡ some user)
      × ((extract_context_subject ctx).organisation_id ≡ org)
      × HoldsPermission same parse_json s.auth user org "sync.manage" none

  permission-Manages :
      (ctx : Context) (s : Store)
      → require_permission same parse_json trim refuses ctx "sync.manage" s ≡ ok tt
      → Manages ctx (extract_context_subject ctx).organisation_id s
  unfolding require_permission require_trusted require
  permission-Manages (trusted p device) s h =
      let subject : Subject = record {
        user_id = p.user_id;
        organisation_id = p.organisation_id;
        roles = p.roles;
      } in
      let allowed =
        (allowed_iff same parse_json (can same parse_json subject "sync.manage" none s.auth)).0
          (denied_as-ok _ h) in
      (
        p.user_id,
        refl,
        refl,
        ((can-granted_iff same parse_json subject "sync.manage" none s.auth).0 allowed).1,
      )
  permission-Manages (operation none device org) s h = cc
  permission-Manages (operation (some u) device org) s h = elim (Bool-cases (u == "")) [
    | inl e ↦ absurd (ground arith)
    | inr e ↦
        let allowed : denied_as
              (require_for_subject same parse_json u org "sync.manage" none s.auth)
            ≡ ok tt =
          rw (e, require_permission) at h in
        (
          u,
          refl,
          refl,
          (require_for_subject-ok_iff same parse_json u org "sync.manage" none s.auth).0
              (denied_as-ok _ allowed),
        )
  ]

  create-permission :
      (name : String) (description : Option String) (organisation : String) (ctx : Context)
      (id : String) (now : ℕ) (s s' : Store)
      → create_group same parse_json trim refuses name description organisation ctx id now s ≡ ok s'
      → (require_permission same parse_json trim refuses ctx "sync.manage" s ≡ ok tt)
        × ((extract_context_subject ctx).organisation_id ≡ organisation)
  unfolding create_group
  create-permission name description organisation ctx id now s s' h =
      ground (arith, eq_iff organisation (extract_context_subject ctx).organisation_id)

  manager_of_group :
      (ctx : Context) (group : String) (s : Store)
      → require_permission same parse_json trim refuses ctx "sync.manage" s ≡ ok tt
      → require_group_organisation group ctx s ≡ ok tt
      → (g : GroupRow) × (find_group group s ≡ some g) × Manages ctx g.organisation_id s
  manager_of_group ctx group s permitted inside =
      let (g, found, same_org) = group-organisation group ctx s inside in
      (
        g,
        found,
        subst (λ org. Manages ctx org s) (sym same_org) (permission-Manages ctx s permitted),
      )

  -- What a call that returns says of its caller.
  abbrev pub Authorised : Call → Store → Type 0
  Authorised (create name description organisation ctx id now) s = Manages ctx organisation s
  Authorised (request group device user id now) s = Unit
  Authorised (approve r ctx signature expected decision member now) s =
      (req : RequestRow) × (find_request r s.requests ≡ some req)
      × ((g : GroupRow) × (find_group req.group_id s ≡ some g) × Manages ctx g.organisation_id s)
  Authorised (revoke device group ctx reason revocation now) s =
      (g : GroupRow) × (find_group group s ≡ some g) × Manages ctx g.organisation_id s
  Authorised (reject r ctx decision now) s =
      (req : RequestRow) × (find_request r s.requests ≡ some req)
      × ((g : GroupRow) × (find_group req.group_id s ≡ some g) × Manages ctx g.organisation_id s)

  -- Where a group is created, a membership approved or rejected, or a device revoked, the caller acts for
  -- a user who holds "sync.manage" by the tables of roles, in the organisation that owns the group, which
  -- is the caller's own organisation.
  pub run-Authorised :
      (c : Call) (s s' : Store) → run same parse_json trim refuses c s ≡ ok s' → Authorised c s
  unfolding run
  run-Authorised (create name description organisation ctx id now) s s' e =
      let (permitted, own) = create-permission name description organisation ctx id now s s' e in
      subst (λ org. Manages ctx org s) own (permission-Manages ctx s permitted)
  run-Authorised (request group device user id now) s s' e = tt
  run-Authorised (approve r ctx signature expected decision member now) s s' e =
      let (req, checked, other, after) =
        approve-effect same parse_json trim refuses r ctx signature expected decision member now s
          s' e in
      let (permitted, found, inside, waiting) =
        check_request-ok same parse_json trim refuses r ctx s req checked in
      (req, found, manager_of_group ctx req.group_id s permitted inside)
  run-Authorised (revoke device group ctx reason revocation now) s s' e =
      let (permitted, inside, r, d, m) =
        revoke-effect same parse_json trim refuses device group ctx reason revocation now s s' e in
      manager_of_group ctx group s permitted inside
  run-Authorised (reject r ctx decision now) s s' e =
      let (req, checked, after) =
        reject-effect same parse_json trim refuses r ctx decision now s s' e in
      let (permitted, found, inside, waiting) =
        check_request-ok same parse_json trim refuses r ctx s req checked in
      (req, found, manager_of_group ctx req.group_id s permitted inside)
