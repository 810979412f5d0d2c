-- ===== src/Payments.antt =====
-- src/controllers/PaymentController.ts: payments are initiated, and the results that providers send
-- by callback or webhook are applied to attempts and checkouts.
mod Model
pub mod Monotone
pub mod Acceptance
mod Tests
use Prim.Native.String.{String}
use text.Mathlib.Text.{◌==◌ as str_eq}
use qubit_hosting_panel.Common.{
  ℕ, ◌+◌, Bool, true, false, not, ◌&&◌, ◌||◌, Option, none, some, List, [], ◌∷◌, ◌++◌, ◌==◌,
  if◌then◌else◌, any, is_some,
}
use qubit_hosting_panel.Common.Text.{Text, text_eq, is_empty, codes}
use qubit_hosting_panel.Common.Table.{find, update_where, latest_by}
use qubit_hosting_panel.Provisioning.Model.{CheckoutStatus}
pub use Model.*

infixl 5 ◌>>=◌
abbrev ◌>>=◌ : {A B : Type 0} → Option A → (A → Option B) → Option B
none >>= k = none
some a >>= k = k a

abbrev pub same_code : PaymentProviderCode → PaymentProviderCode → Bool
same_code PaymentProviderCode.mock PaymentProviderCode.mock = true
same_code PaymentProviderCode.payu PaymentProviderCode.payu = true
same_code PaymentProviderCode.razorpay PaymentProviderCode.razorpay = true
same_code _ _ = false

-- `['awaiting_payment', 'payment_failed', 'payment_pending'].includes(checkout.status)`
abbrev pub is_payable : CheckoutStatus → Bool
is_payable CheckoutStatus.awaiting_payment = true
is_payable CheckoutStatus.payment_failed = true
is_payable CheckoutStatus.payment_pending = true
is_payable _ = false

-- What a call of `initiate` reads besides the checkout: the order that the provider opened, or
-- `none` where it threw, the time and the id of the new attempt.
pub record Initiation : Type 0 where
  pub provider : PaymentProviderCode
  pub order_id : Option Text
  pub now : ℕ
  pub new_id : ℕ

-- `initiate`, for an authenticated owner: the checkout is read and tested,
unfoldable pub payable_checkout : ℕ → Payments → Option Checkout
payable_checkout public_id s =
    find (λ c. c.public_id == public_id && not c.deleted) s.checkouts >>= λ c.
    if is_payable c.status then some c else none

-- the provider opens an order, which takes its time, and the transaction writes what was read.
unfoldable pub record_session : Initiation → Text → Checkout → Payments → Payments
record_session q order c s = record s {
  attempts =
      s.attempts
      ++ record {
        id = q.new_id;
        checkout_id = c.id;
        provider = q.provider;
        status = AttemptStatus.pending;
        provider_order_id = order;
        provider_payment_id = none;
        amount_minor = c.total_minor;
        currency = c.currency;
        verified_at = none;
        failure_message = none;
        created_at = q.now;
        deleted = false;
      }
        ∷ [];
  checkouts =
      update_where (λ d. d.id == c.id) (λ d. record d { status = CheckoutStatus.payment_pending })
        s.checkouts;
}

-- The whole of `initiate`; `meanwhile` is what other requests write while the provider is called, and
-- `false` is a failure response.
unfoldable pub initiate : Initiation → (Payments → Payments) → ℕ → Payments → Bool × Payments
unfolding payable_checkout record_session
initiate q meanwhile public_id s = elim (payable_checkout public_id s) [
  | none ↦ (false, s)
  | some c ↦ elim q.order_id [
    | none ↦ (false, meanwhile s)
    | some order ↦ (true, record_session q order c (meanwhile s))
  ]
]

-- The row of the order, joined with its checkout: the newest.
abbrev pub of_order : PaymentProviderCode → Text → List Checkout → PaymentAttempt → Bool
of_order code order checkouts a =
    same_code a.provider code
    && text_eq a.provider_order_id order
    && not a.deleted
    && any (λ c. c.id == a.checkout_id && not c.deleted) checkouts

unfoldable pub find_attempt :
    PaymentProviderCode → VerifiedPayment → Payments → Option PaymentAttempt
find_attempt code r s =
    latest_by (λ a. a.created_at) (of_order code r.order_id s.checkouts) s.attempts

unfoldable pub amount_matches : PaymentAttempt → VerifiedPayment → Bool
amount_matches a r = a.amount_minor == r.amount_minor && str_eq a.currency r.currency

abbrev pub is_verified : PaymentStatus → Bool
is_verified PaymentStatus.verified = true
is_verified _ = false

abbrev pub is_failed : PaymentStatus → Bool
is_failed PaymentStatus.failed = true
is_failed _ = false

unfoldable pub accepted : PaymentAttempt → VerifiedPayment → Bool
accepted a r = is_verified r.status && amount_matches a r

-- `result.status`, as a status of the attempt.
abbrev pub attempt_status : PaymentStatus → AttemptStatus
attempt_status PaymentStatus.verified = AttemptStatus.verified
attempt_status PaymentStatus.pending = AttemptStatus.pending
attempt_status PaymentStatus.failed = AttemptStatus.failed
attempt_status PaymentStatus.cancelled = AttemptStatus.cancelled

-- `result.eventKey || createHash(...)`
abbrev pub event_key_of : VerifiedPayment → Text
event_key_of r = if is_empty r.event_key then r.payload_hash else r.event_key

abbrev pub is_event : PaymentProviderCode → VerifiedPayment → WebhookEvent → Bool
is_event code r e = same_code e.provider code && text_eq e.event_key (event_key_of r)

abbrev pub is_verified_attempt : AttemptStatus → Bool
is_verified_attempt AttemptStatus.verified = true
is_verified_attempt _ = false

-- `ne(status, 'verified')`
abbrev pub open_attempt : ℕ → PaymentAttempt → Bool
open_attempt id a = a.id == id && not (is_verified_attempt a.status)

-- `ne(status, ...)` three times: the purchase of such a checkout is complete.
abbrev pub is_purchased : CheckoutStatus → Bool
is_purchased CheckoutStatus.workspace_setup_pending = true
is_purchased CheckoutStatus.provisioning = true
is_purchased CheckoutStatus.active = true
is_purchased _ = false

abbrev pub open_checkout : ℕ → Checkout → Bool
open_checkout id c = c.id == id && not (is_purchased c.status)

unfoldable pub set_attempt : ℕ → PaymentAttempt → VerifiedPayment → PaymentAttempt → PaymentAttempt
set_attempt now a r b = record b {
  status = if accepted a r then AttemptStatus.verified else attempt_status r.status;
  provider_payment_id = r.payment_id;
  verified_at = if accepted a r then some now else none;
  failure_message =
      if amount_matches a r then none else some (codes "Payment amount or currency mismatch.");
}

unfoldable pub set_checkout : ℕ → PaymentAttempt → VerifiedPayment → Checkout → Checkout
set_checkout now a r c = record c {
  status =
      if accepted a r
      then CheckoutStatus.workspace_setup_pending
      else (if is_failed r.status
          then CheckoutStatus.payment_failed
          else CheckoutStatus.payment_pending);
  purchased_at = if accepted a r then some now else none;
}

-- The transaction, after the insert of the event.
unfoldable pub record_result :
    ℕ → PaymentProviderCode → PaymentAttempt → VerifiedPayment → Payments → Payments
unfolding set_attempt set_checkout
record_result now code a r s = if any (is_event code r) s.events then s else record s {
  events =
      s.events
      ++ record {
        attempt_id = a.id;
        provider = code;
        event_key = event_key_of r;
        status = if amount_matches a r then EventStatus.processed else EventStatus.rejected;
      }
        ∷ [];
  attempts = update_where (open_attempt a.id) (set_attempt now a r) s.attempts;
  checkouts = update_where (open_checkout a.checkout_id) (set_checkout now a r) s.checkouts;
}

-- `applyProviderResult`: whether the payment succeeded, or `none` where no attempt is found.
unfoldable pub apply_provider_result :
    ℕ → PaymentProviderCode → VerifiedPayment → Payments → Option Bool × Payments
unfolding record_result
apply_provider_result now code r s = elim (find_attempt code r s) [
  | none ↦ (none, s)
  | some a ↦ (some (accepted a r), record_result now code a r s)
]
