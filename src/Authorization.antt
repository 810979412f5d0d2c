-- ===== src/Authorization.antt =====
-- src/services/authorization/permissionService.ts and adminAuthorizationService.ts: the permissions of
-- a user and the guard of every admin operation.
pub mod Permissions
pub mod Guard
mod Tests
use qubit_hosting_panel.Common.{
  ℕ, Bool, true, false, not, ◌&&◌, ◌||◌, Option, none, some, List, [], ◌∷◌, ◌++◌, ◌==◌, ltb, any,
  if◌then◌else◌,
}
use qubit_hosting_panel.Common.Text.{Text, text_eq}
use qubit_hosting_panel.Common.Table.{find}
use qubit_hosting_panel.Sessions.{SessionContext, AuthenticatedSession}

pub data PermissionEffect : Type 0 where
  allow deny : PermissionEffect

pub record PlatformRole : Type 0 where
  pub id : ℕ
  pub is_super_admin : Bool
  pub deleted : Bool

pub record PlatformPermission : Type 0 where
  pub id : ℕ
  pub code : Text
  pub deleted : Bool

pub record PlatformRolePermission : Type 0 where
  pub role_id : ℕ
  pub permission_id : ℕ
  pub deleted : Bool

pub record PlatformUserRole : Type 0 where
  pub user_id : ℕ
  pub role_id : ℕ
  pub expires_at : Option ℕ
  pub deleted : Bool

pub record PlatformUserPermissionOverride : Type 0 where
  pub user_id : ℕ
  pub permission_id : ℕ
  pub effect : PermissionEffect
  pub expires_at : Option ℕ
  pub deleted : Bool

pub record Grants : Type 0 where
  pub roles : List PlatformRole
  pub permissions : List PlatformPermission
  pub role_permissions : List PlatformRolePermission
  pub user_roles : List PlatformUserRole
  pub overrides : List PlatformUserPermissionOverride

-- `or(isNull(expiresAt), gt(expiresAt, now))`
abbrev pub in_force : ℕ → Option ℕ → Bool
in_force now none = true
in_force now (some t) = ltb now t

abbrev pub is_deny : PermissionEffect → Bool
is_deny PermissionEffect.deny = true
is_deny PermissionEffect.allow = false

abbrev pub is_assigned : ℕ → ℕ → PlatformUserRole → Bool
is_assigned now user r = r.user_id == user && not r.deleted && in_force now r.expires_at

-- A permission of the join that is not deleted.
abbrev pub is_permission : ℕ → PlatformPermission → Bool
is_permission id p = p.id == id && not p.deleted

-- `roleGrants`: the codes of the permissions of the assigned roles.
unfoldable pub role_grants : ℕ → ℕ → Grants → List PlatformRolePermission → List Text
role_grants now user g [] = []
role_grants now user g (r ∷ rs) =
    let rest = role_grants now user g rs in
    if any (λ a. is_assigned now user a && a.role_id == r.role_id) g.user_roles && not r.deleted
    then elim (find (is_permission r.permission_id) g.permissions) [
      | none ↦ rest
      | some p ↦ p.code ∷ rest
    ]
    else rest

abbrev pub is_override : ℕ → ℕ → PlatformUserPermissionOverride → Bool
is_override now user o = o.user_id == user && not o.deleted && in_force now o.expires_at

-- `overrides`: codes with their effects.
unfoldable pub override_codes :
    ℕ → ℕ → Grants → List PlatformUserPermissionOverride → List (Text × PermissionEffect)
override_codes now user g [] = []
override_codes now user g (o ∷ os) =
    let rest = override_codes now user g os in
    if is_override now user o
    then elim (find (is_permission o.permission_id) g.permissions) [
      | none ↦ rest
      | some p ↦ (p.code, o.effect) ∷ rest
    ]
    else rest

-- A set of codes as a list: `has`, and `delete`.
abbrev pub has_code : Text → List Text → Bool
has_code code = any (λ c. text_eq c code)

unfoldable pub delete_code : Text → List Text → List Text
delete_code code [] = []
delete_code code (c ∷ cs) =
    let rest = delete_code code cs in if text_eq c code then rest else c ∷ rest

-- `if (override.effect === 'allow') granted.add(override.code)`
unfoldable pub add_allows : List (Text × PermissionEffect) → List Text → List Text
add_allows [] granted = granted
add_allows ((code, effect) ∷ os) granted =
    add_allows os (if is_deny effect then granted else code ∷ granted)

-- `if (override.effect === 'deny') granted.delete(override.code)`
unfoldable pub delete_denies : List (Text × PermissionEffect) → List Text → List Text
delete_denies [] granted = granted
delete_denies ((code, effect) ∷ os) granted =
    delete_denies os (if is_deny effect then delete_code code granted else granted)

unfoldable pub get_effective_permission_codes : ℕ → ℕ → Grants → List Text
get_effective_permission_codes now user g =
    let overrides = override_codes now user g g.overrides in
    delete_denies overrides (add_allows overrides (role_grants now user g g.role_permissions))

pub record AuthorizedAdmin : Type 0 where
  pub is_super_admin : Bool
  pub permission_codes : List Text
  pub session_id : ℕ
  pub user_id : ℕ

pub data AuthorizationResult : Type 0 where
  unauthenticated admin_context_required permission_denied : AuthorizationResult
  authorized : AuthorizedAdmin → AuthorizationResult

-- Each query takes the time anew.
pub record GuardTimes : Type 0 where
  pub super_at : ℕ
  pub codes_at : ℕ
  pub deny_at : ℕ

abbrev pub is_admin_context : SessionContext → Bool
is_admin_context SessionContext.admin = true
is_admin_context _ = false

-- `superAssignment`
unfoldable pub has_super_assignment : ℕ → ℕ → Grants → Bool
has_super_assignment now user g =
    any
      (λ a.
        is_assigned now user a
        && any (λ r. r.id == a.role_id && r.is_super_admin && not r.deleted) g.roles)
      g.user_roles

-- `explicitDeny`
unfoldable pub has_explicit_deny : ℕ → ℕ → Text → Grants → Bool
has_explicit_deny now user code g =
    any
      (λ o.
        is_override now user o
        && is_deny o.effect
        && any (λ p. is_permission o.permission_id p && text_eq p.code code) g.permissions)
      g.overrides

unfoldable pub authorize_permission :
    GuardTimes → Text → Grants → AuthenticatedSession → AuthorizationResult
authorize_permission t code g s =
    let codes = get_effective_permission_codes t.codes_at s.user_id g in
    if has_explicit_deny t.deny_at s.user_id code g || not (has_code code codes)
    then permission_denied
    else authorized (record {
      is_super_admin = false;
      permission_codes = codes;
      session_id = s.session_id;
      user_id = s.user_id;
    })

-- `authorizeAdmin`, of the session that `authenticateSession` returned, or `none` where it threw.
unfoldable pub authorize_admin :
    GuardTimes → Text → Grants → Option AuthenticatedSession → AuthorizationResult
authorize_admin t code g none = unauthenticated
authorize_admin t code g (some s) =
    if is_admin_context s.context
    then (if has_super_assignment t.super_at s.user_id g
        then authorized (record {
          is_super_admin = true;
          permission_codes = [];
          session_id = s.session_id;
          user_id = s.user_id;
        })
        else authorize_permission t code g s)
    else admin_context_required
