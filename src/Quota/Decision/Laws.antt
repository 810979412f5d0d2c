-- ===== src/Quota/Decision/Laws.antt =====
-- What a quota decision says.
use qubit_hosting_panel.Common.{
  ℕ, ◌+◌, ◌<◌, ◌≡◌, ◌↔◌, true, false, Option, some, arith, inl, inr, not, ◌&&◌, Option-cases,
}
use qubit_hosting_panel.Quota.Decision.{EnforcementMode, QuotaInput, passes_limit, evaluate_quota}

-- The limit that is in force.
abbrev pub effective_limit : QuotaInput → Option ℕ
effective_limit q = (evaluate_quota q).limit

-- Use beyond the limit in force, with what is pending and what is asked.
abbrev pub Exceeds : QuotaInput → Type 0
Exceeds q =
    (l : ℕ) × (q.unlimited ≡ false) × (q.limit ≡ some l) × (l < q.current + q.pending + q.quantity)

Exceeds-passes_limit :
    (q : QuotaInput)
    → not q.unlimited && passes_limit q.limit (q.current + q.pending + q.quantity) ≡ true
    → Exceeds q
Exceeds-passes_limit q h = elim (Option-cases q.limit) [
  | inl e ↦ ground arith
  | inr (l, e) ↦ (l, ground arith, e, ground arith)
]

-- A request is refused exactly when its mode is hard and it passes a limit in force; in the other
-- modes the same requests are allowed with a warning.
pub evaluate_quota_lem :
    (q : QuotaInput)
    → ((evaluate_quota q).warning ≡ true ↔ Exceeds q)
      × ((evaluate_quota q).allowed ≡ false ↔ ((q.mode ≡ EnforcementMode.hard) × Exceeds q))
unfolding evaluate_quota
evaluate_quota_lem q = (
  (Exceeds-passes_limit q, λ x. ground arith),
  (λ h. (ground arith, Exceeds-passes_limit q (ground arith)), λ x. ground arith),
)
