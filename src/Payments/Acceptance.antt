-- ===== src/Payments/Acceptance.antt =====
-- When a payment completes a purchase.
use text.Mathlib.TextEquality.{eq_iff}
use qubit_hosting_panel.Common.{
  ℕ, ◌≡◌, ◌≢◌, refl, inl, inr, true, false, none, some, List, [], ◌∷◌, arith, ◌==◌, any, All,
  Bool-cases, Pointwise, Pointwise-refl,
}
use qubit_hosting_panel.Common.Text.{Text, codes}
use qubit_hosting_panel.Common.Table.{update_where, Pointwise-update_where, All-updated}
use qubit_hosting_panel.Provisioning.Model.{CheckoutStatus}
use qubit_hosting_panel.Payments.{
  PaymentProviderCode, AttemptStatus, PaymentStatus, VerifiedPayment, PaymentAttempt, Checkout,
  Payments, is_event, find_attempt, is_purchased, open_attempt, open_checkout, set_attempt,
  set_checkout, record_result, apply_provider_result, accepted, amount_matches, Initiation,
  initiate, payable_checkout,
}
use qubit_hosting_panel.Payments.Monotone.{apply-found}

-- A checkout that a message completes belongs to the message's attempt, and the message says that the
-- provider verified a payment of the attempt's amount and currency.
pub record Completes (a : PaymentAttempt) (r : VerifiedPayment) (c d : Checkout) : Type 0 where
  pub paid :
      is_purchased c.status ≡ false
      → is_purchased d.status ≡ true
      → (c.id ≡ a.checkout_id)
        × (r.status ≡ PaymentStatus.verified)
        × (r.amount_minor ≡ a.amount_minor)
        × (r.currency ≡ a.currency)
        × (d.status ≡ CheckoutStatus.workspace_setup_pending)

set_checkout-Completes :
    (now : ℕ) (a : PaymentAttempt) (r : VerifiedPayment) (c : Checkout)
    → open_checkout a.checkout_id c ≡ true
    → Completes a r c (set_checkout now a r c)
unfolding set_checkout accepted amount_matches
set_checkout-Completes now a r c o = record {
  paid = λ n p. ground (arith, eq_iff a.currency r.currency);
}

record_result-Completes :
    (now : ℕ) (code : PaymentProviderCode) (a : PaymentAttempt) (r : VerifiedPayment) (s : Payments)
    → Pointwise (Completes a r) s.checkouts (record_result now code a r s).checkouts
unfolding record_result
record_result-Completes now code a r s = elim (Bool-cases (any (is_event code r) s.events)) [
  | inl e ↦ rw e (Pointwise-refl (Completes a r) (λ c. record { paid = λ n p. cc }) s.checkouts)
  | inr e ↦ rw e (
      Pointwise-update_where (Completes a r) (open_checkout a.checkout_id) (set_checkout now a r)
        s.checkouts (set_checkout-Completes now a r) (λ c. record { paid = λ n p. cc }))
]

-- A message of a provider completes the purchase of a checkout only where the provider verified a
-- payment of exactly the amount and the currency of the attempt that the checkout's order belongs to.
pub purchase_needs_payment :
    (now : ℕ) (code : PaymentProviderCode) (r : VerifiedPayment) (s : Payments) (a : PaymentAttempt)
    → find_attempt code r s ≡ some a
    → Pointwise (Completes a r) s.checkouts (apply_provider_result now code r s).1.checkouts
purchase_needs_payment now code r s a e =
    rw (apply-found now code r s e) (record_result-Completes now code a r s)

mismatch_row :
    (now : ℕ) (a : PaymentAttempt) (r : VerifiedPayment) (b : PaymentAttempt)
    → r.status ≡ PaymentStatus.verified
    → r.amount_minor ≢ a.amount_minor
    → ((set_attempt now a r b).status ≡ AttemptStatus.verified)
      × ((set_attempt now a r b).verified_at ≡ none)
      × ((set_attempt now a r b).failure_message
          ≡ some (codes "Payment amount or currency mismatch."))
unfolding set_attempt accepted amount_matches
mismatch_row now a r b v n = ground arith

-- A verified payment of another amount is refused, and yet leaves the attempt's open row verified,
-- with no time of verification and the message of the mismatch.
pub mismatch_is_marked_verified :
    (now : ℕ) (code : PaymentProviderCode) (r : VerifiedPayment) (s : Payments) (a : PaymentAttempt)
    → find_attempt code r s ≡ some a
    → any (is_event code r) s.events ≡ false
    → r.status ≡ PaymentStatus.verified
    → r.amount_minor ≢ a.amount_minor
    → ((apply_provider_result now code r s).0 ≡ some false)
      × Pointwise
          (λ b c.
            open_attempt a.id b ≡ true
            → (c.status ≡ AttemptStatus.verified)
              × (c.verified_at ≡ none)
              × (c.failure_message ≡ some (codes "Payment amount or currency mismatch.")))
          s.attempts
          (apply_provider_result now code r s).1.attempts
unfolding record_result accepted amount_matches
mismatch_is_marked_verified now code r s a e new v n =
    rw (apply-found now code r s e, new) (ground arith, pointwise s.attempts)
  where
    pointwise :
        (bs : List PaymentAttempt)
        → Pointwise
            (λ b c.
              open_attempt a.id b ≡ true
              → (c.status ≡ AttemptStatus.verified)
                × (c.verified_at ≡ none)
                × (c.failure_message ≡ some (codes "Payment amount or currency mismatch.")))
            bs
            (update_where (open_attempt a.id) (set_attempt now a r) bs)
    pointwise [] = tt
    pointwise (b ∷ bs) = elim (Bool-cases (open_attempt a.id b)) [
      | inl o ↦ rw o (λ _. mismatch_row now a r b v n, pointwise bs)
      | inr o ↦ rw o (λ x. cc, pointwise bs)
    ]

-- A second payment session that was begun before a purchase was completed sets the checkout back to
-- a pending payment: the write does not look at the status again.
pub session_undoes_purchase :
    (q : Initiation) (meanwhile : Payments → Payments) (public_id : ℕ) (s : Payments) (c : Checkout)
    (order : Text)
    → payable_checkout public_id s ≡ some c
    → q.order_id ≡ some order
    → All
        (λ d. (d.id == c.id) ≡ true → d.status ≡ CheckoutStatus.payment_pending)
        (initiate q meanwhile public_id s).1.checkouts
unfolding initiate
session_undoes_purchase q meanwhile public_id s c order e o =
    rw (e, initiate)
      (rw o (
        All-updated (λ d. d.status ≡ CheckoutStatus.payment_pending) (λ d. d.id == c.id)
          (λ d. d.id == c.id) (λ d. record d { status = CheckoutStatus.payment_pending })
          (meanwhile s).checkouts (λ d _. refl) (λ d x. x)))
