-- ===== src/Authorization/Tests.antt =====
-- A support role that reads invoices, with an override that denies it to one user.
use qubit_hosting_panel.Common.{ℕ, ◌≡◌, refl, false, not, ◌&&◌, ◌||◌, none, some, [], ◌∷◌}
use qubit_hosting_panel.Common.Text.{codes, text_eq}
use qubit_hosting_panel.Sessions.{SessionContext, AuthenticatedSession}
use qubit_hosting_panel.Authorization.{
  PermissionEffect, Grants, GuardTimes, AuthorizedAdmin, authorized, permission_denied,
  has_super_assignment, has_explicit_deny, has_code, delete_code, add_allows, delete_denies,
  role_grants, override_codes, get_effective_permission_codes, authorize_permission,
  authorize_admin,
}
use qubit_hosting_panel.Authorization.Permissions.{
  is_allowed, is_denied, get_effective_permission_codes_lem,
}
use qubit_hosting_panel.Authorization.Guard.{IsAdmitted, authorize_admin-IsAdmitted}

abbrev grants : Grants
grants = record {
  roles = record { id = 1; is_super_admin = false; deleted = false } ∷ [];
  permissions = record { id = 10; code = codes "a"; deleted = false } ∷ [];
  role_permissions = record { role_id = 1; permission_id = 10; deleted = false } ∷ [];
  user_roles =
      record { user_id = 7; role_id = 1; expires_at = none; deleted = false }
      ∷ record { user_id = 8; role_id = 1; expires_at = none; deleted = false }
      ∷ [];
  overrides =
      record {
        user_id = 8;
        permission_id = 10;
        effect = PermissionEffect.deny;
        expires_at = some 500;
        deleted = false;
      }
      ∷ [];
}

abbrev times : ℕ → GuardTimes
times n = record { super_at = n; codes_at = n; deny_at = n }

abbrev admin : ℕ → AuthenticatedSession
admin n = record { context = SessionContext.admin; session_id = 3; user_id = n }

abbrev reader : AuthorizedAdmin
reader = record {
  is_super_admin = false;
  permission_codes = codes "a" ∷ [];
  session_id = 3;
  user_id = 7;
}

denied_test : authorize_admin (times 100) (codes "a") grants (some (admin 8)) ≡ permission_denied
unfolding authorize_admin authorize_permission has_super_assignment has_explicit_deny
    get_effective_permission_codes override_codes role_grants add_allows delete_denies delete_code
    text_eq
denied_test = refl

authorized_test :
    authorize_admin (times 100) (codes "a") grants (some (admin 7)) ≡ authorized reader
unfolding authorize_admin authorize_permission has_super_assignment has_explicit_deny
    get_effective_permission_codes override_codes role_grants add_allows delete_denies delete_code
    text_eq
authorized_test = refl

get_effective_permission_codes_example :
    has_code (codes "a") (get_effective_permission_codes 100 8 grants) ≡ (
      (is_allowed (codes "a") (override_codes 100 8 grants grants.overrides)
        || has_code (codes "a") (role_grants 100 8 grants grants.role_permissions))
      && not (is_denied (codes "a") (override_codes 100 8 grants grants.overrides)))
get_effective_permission_codes_example = get_effective_permission_codes_lem 100 8 grants (codes "a")

authorize_admin-IsAdmitted_example : IsAdmitted (times 100) (codes "a") grants (admin 7) reader
authorize_admin-IsAdmitted_example =
    authorize_admin-IsAdmitted (times 100) (codes "a") grants (admin 7) reader authorized_test
