-- ===== src/Authorization/Permissions.antt =====
-- Which permissions a user has.
use qubit_hosting_panel.Common.{
  ℕ, ◌≡◌, refl, sym, ap, ◌∙◌, subst, inl, inr, Bool, true, false, not, ◌&&◌, ◌||◌, List, [], ◌∷◌,
  arith, any, Bool-cases, if◌then◌else◌,
}
use qubit_hosting_panel.Common.Text.{Text, text_eq, text_eq_sound, text_eq_refl}
use qubit_hosting_panel.Authorization.{
  PermissionEffect, Grants, is_deny, has_code, delete_code, add_allows, delete_denies, role_grants,
  override_codes, get_effective_permission_codes,
}

-- Whether an override of one effect names the code.
abbrev pub is_allowed : Text → List (Text × PermissionEffect) → Bool
is_allowed code = any (λ o. not (is_deny o.1) && text_eq o.0 code)

abbrev pub is_denied : Text → List (Text × PermissionEffect) → Bool
is_denied code = any (λ o. is_deny o.1 && text_eq o.0 code)

has_code-add_allows :
    (code : Text) (os : List (Text × PermissionEffect)) (granted : List Text)
    → has_code code (add_allows os granted) ≡ (is_allowed code os || has_code code granted)
unfolding add_allows
has_code-add_allows code [] granted = refl
has_code-add_allows code ((c, e) ∷ os) granted =
    has_code-add_allows code os (if is_deny e then granted else c ∷ granted) ∙ ground arith

same_code-absurd :
    (c d code : Text) → text_eq c d ≡ false → (text_eq c code && text_eq d code) ≡ false
same_code-absurd c d code n = elim (Bool-cases (text_eq c code)) [
  | inr e ↦ ground arith
  | inl e ↦ elim (Bool-cases (text_eq d code)) [
    | inr f ↦ ground arith
    | inl f ↦
        let same = text_eq_sound c code e ∙ sym (text_eq_sound d code f) in
        let yes = subst (λ x. text_eq c x ≡ true) same (text_eq_refl c) in absurd (ground arith)
  ]
]

has_code-delete_code :
    (code d : Text) (granted : List Text)
    → has_code code (delete_code d granted) ≡ (has_code code granted && not (text_eq d code))
unfolding delete_code
has_code-delete_code code d [] = refl
has_code-delete_code code d (c ∷ cs) = elim (Bool-cases (text_eq c d)) [
  | inl e ↦
      let same : text_eq c code ≡ text_eq d code = ap (λ x. text_eq x code) (text_eq_sound c d e) in
      rw e (has_code-delete_code code d cs ∙ ground (arith, same))
  | inr e ↦ rw e (ground (arith, has_code-delete_code code d cs, same_code-absurd c d code e))
]

has_code-delete_denies :
    (code : Text) (os : List (Text × PermissionEffect)) (granted : List Text)
    → has_code code (delete_denies os granted) ≡ (has_code code granted && not (is_denied code os))
unfolding delete_denies
has_code-delete_denies code [] granted = ground arith
has_code-delete_denies code ((c, e) ∷ os) granted =
    has_code-delete_denies code os (if is_deny e then delete_code c granted else granted)
    ∙ ground (arith, has_code-delete_code code c granted)

-- A user has a permission exactly when a role that is assigned and in force or an override that
-- allows it grants it, and no override in force denies it.
pub get_effective_permission_codes_lem :
    (now user : ℕ) (g : Grants) (code : Text)
    → has_code code (get_effective_permission_codes now user g) ≡ (
        (is_allowed code (override_codes now user g g.overrides)
          || has_code code (role_grants now user g g.role_permissions))
        && not (is_denied code (override_codes now user g g.overrides)))
unfolding get_effective_permission_codes
get_effective_permission_codes_lem now user g code =
    let os = override_codes now user g g.overrides in
    let roles = role_grants now user g g.role_permissions in
    has_code-delete_denies code os (add_allows os roles)
    ∙ ap (λ x. x && not (is_denied code os)) (has_code-add_allows code os roles)
