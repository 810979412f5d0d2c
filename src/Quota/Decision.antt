-- ===== src/Quota/Decision.antt =====
-- `evaluateQuota` of src/services/usage/quotaEngine.ts.
pub mod Laws
use qubit_hosting_panel.Common.{
  ℕ, ◌+◌, Bool, true, false, not, ◌&&◌, ◌||◌, Option, none, some, ltb, if◌then◌else◌,
}

pub data EnforcementMode : Type 0 where
  hard soft metered informational : EnforcementMode

-- A limit of `null` is none, as is `unlimited`.
pub record QuotaInput : Type 0 where
  pub current : ℕ
  pub limit : Option ℕ
  pub mode : EnforcementMode
  pub pending : ℕ
  pub quantity : ℕ
  pub unlimited : Bool

pub record QuotaDecision : Type 0 where
  pub allowed : Bool
  pub current : ℕ
  pub limit : Option ℕ
  pub mode : EnforcementMode
  pub pending : ℕ
  pub projected : ℕ
  pub warning : Bool

abbrev pub is_hard : EnforcementMode → Bool
is_hard EnforcementMode.hard = true
is_hard _ = false

abbrev pub passes_limit : Option ℕ → ℕ → Bool
passes_limit none n = false
passes_limit (some l) n = ltb l n

unfoldable pub evaluate_quota : QuotaInput → QuotaDecision
evaluate_quota q =
    let projected = q.current + q.pending + q.quantity in
    let exceeded = not q.unlimited && passes_limit q.limit projected in
    record {
      allowed = not exceeded || not (is_hard q.mode);
      current = q.current;
      limit = if q.unlimited then none else q.limit;
      mode = q.mode;
      pending = q.pending;
      projected = projected;
      warning = exceeded;
    }
