-- ===== src/Quota/Entitlement/Laws.antt =====
-- Which of override, snapshot, add-ons and definition decides an entitlement.
use Prim.Native.String.{String}
use mathlib.Core.Path.{ap₂}
use mathlib.Core.Logic.{∥∥₁_elim}
use mathlib.Core.List.{Perm, Permᴰ}
use native.Mathlib.Nat.{ℕ_set}
use qubit_hosting_panel.Common.{
  ℕ, ◌+◌, ◌*◌, ◌≡◌, refl, Option, none, some, List, [], ◌∷◌, arith, ◌∙◌, ap,
}
use qubit_hosting_panel.Quota.Decision.{EnforcementMode}
use qubit_hosting_panel.Quota.Entitlement.{
  Override, AddOn, Subscription, matching, number_value, add_on_total, effective_entitlement,
}

-- What the add-ons give, as a sum.
abbrev pub bought : List AddOn → String → ℕ
bought [] code = 0
bought (a ∷ items) code = number_value (matching a.snapshot code) * a.quantity + bought items code

add_on_total_lem :
    (total : ℕ) (items : List AddOn) (code : String)
    → add_on_total total items code ≡ total + bought items code
unfolding add_on_total
add_on_total_lem total [] code = omega arith
add_on_total_lem total (a ∷ items) code = omega (
  arith,
  add_on_total_lem (total + number_value (matching a.snapshot code) * a.quantity) items code,
)

bought-permᴰ : {xs ys : List AddOn} (code : String) → Permᴰ xs ys → bought xs code ≡ bought ys code
bought-permᴰ code Permᴰ.nil = refl
bought-permᴰ code (Permᴰ.cons e h) =
    ap₂ ◌+◌ (ap (λ (x : AddOn). number_value (matching x.snapshot code) * x.quantity) e)
      (bought-permᴰ code h)
bought-permᴰ code (Permᴰ.swap {l} e f) = rw (e, f) (omega arith)
bought-permᴰ code (Permᴰ.trans h k) = bought-permᴰ code h ∙ bought-permᴰ code k

-- The order in which the active add-ons are read does not change any field of the entitlement.
pub entitlement-perm :
    (s : Option Subscription) (definition : Option EnforcementMode) (override : Option Override)
    (xs ys : List AddOn) (code : String)
    → Perm xs ys
    → effective_entitlement s definition override xs code
      ≡ effective_entitlement s definition override ys code
unfolding effective_entitlement
entitlement-perm none definition override xs ys code h = refl
entitlement-perm (some s) definition override xs ys code h =
    let same = ∥∥₁_elim h (ℕ_set _ _) (bought-permᴰ code) in
    rw (add_on_total_lem 0 xs code, add_on_total_lem 0 ys code, same)
