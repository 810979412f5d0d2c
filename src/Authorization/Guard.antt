-- ===== src/Authorization/Guard.antt =====
-- What the guard of admin operations lets through.
use qubit_hosting_panel.Common.{ℕ, ◌≡◌, ◌⊎◌, inl, inr, true, false, ◌||◌, some, arith, Bool-cases}
use qubit_hosting_panel.Common.Text.{Text}
use qubit_hosting_panel.Sessions.{AuthenticatedSession}
use qubit_hosting_panel.Authorization.{
  Grants, GuardTimes, AuthorizedAdmin, authorized, is_admin_context, has_super_assignment,
  has_explicit_deny, has_code, role_grants, override_codes, authorize_permission, authorize_admin,
}
use qubit_hosting_panel.Authorization.Permissions.{
  is_allowed, is_denied, get_effective_permission_codes_lem,
}

-- The grounds on which a user who is no super administrator passes.
pub record IsGranted (t : GuardTimes) (code : Text) (g : Grants) (user : ℕ) : Type 0 where
  pub granted :
      (is_allowed code (override_codes t.codes_at user g g.overrides)
        || has_code code (role_grants t.codes_at user g g.role_permissions))
      ≡ true
  pub undenied : is_denied code (override_codes t.codes_at user g g.overrides) ≡ false
  pub no_explicit_deny : has_explicit_deny t.deny_at user code g ≡ false

-- An admission of a session.
pub record IsAdmitted (t : GuardTimes) (code : Text) (g : Grants) (s : AuthenticatedSession)
    (a : AuthorizedAdmin) : Type 0 where
  pub context : is_admin_context s.context ≡ true
  pub user : a.user_id ≡ s.user_id
  pub grounds :
      ((a.is_super_admin ≡ true) × (has_super_assignment t.super_at s.user_id g ≡ true))
      ⊎ ((a.is_super_admin ≡ false) × IsGranted t code g s.user_id)

permission-IsGranted :
    (t : GuardTimes) (code : Text) (g : Grants) (s : AuthenticatedSession) (a : AuthorizedAdmin)
    → authorize_permission t code g s ≡ authorized a
    → (a.is_super_admin ≡ false) × (a.user_id ≡ s.user_id) × IsGranted t code g s.user_id
unfolding authorize_permission
permission-IsGranted t code g s a h =
    let has = get_effective_permission_codes_lem t.codes_at s.user_id g code in
    (
      ground arith,
      ground arith,
      record {
        granted = ground (arith, has);
        undenied = ground (arith, has);
        no_explicit_deny = ground arith;
      },
    )

-- Whoever passes the guard has a session in the admin context, and either an unexpired assignment of a
-- super-administrator role, or the permission by a role or an override with no denial in force.
pub authorize_admin-IsAdmitted :
    (t : GuardTimes) (code : Text) (g : Grants) (s : AuthenticatedSession) (a : AuthorizedAdmin)
    → authorize_admin t code g (some s) ≡ authorized a
    → IsAdmitted t code g s a
unfolding authorize_admin
authorize_admin-IsAdmitted t code g s a h = elim (Bool-cases (is_admin_context s.context)) [
  | inr e ↦ absurd (let k = rw e at h in cc)
  | inl e ↦ elim (Bool-cases (has_super_assignment t.super_at s.user_id g)) [
    | inl super ↦ record { context = e; user = ground arith; grounds = inl (ground arith, super) }
    | inr plain ↦
        let (n, u, k) = permission-IsGranted t code g s a (rw (e, plain) at h) in
        record { context = e; user = u; grounds = inr (n, k) }
  ]
]
