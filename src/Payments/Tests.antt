-- ===== src/Payments/Tests.antt =====
-- One checkout, one attempt, and messages of the provider.
use qubit_hosting_panel.Common.{ℕ, ◌≡◌, refl, false, none, some, [], ◌∷◌, Pointwise}
use qubit_hosting_panel.Common.Text.{codes, text_eq}
use qubit_hosting_panel.Provisioning.Model.{CheckoutStatus}
use qubit_hosting_panel.Payments.{
  PaymentProviderCode, AttemptStatus, PaymentStatus, VerifiedPayment, PaymentAttempt, Checkout,
  Payments, find_attempt, apply_provider_result, payable_checkout, amount_matches, accepted,
}
use qubit_hosting_panel.Payments.Monotone.{Keeps, apply_all, apply_all-Keeps, apply-apply}
use qubit_hosting_panel.Payments.Acceptance.{Completes, purchase_needs_payment}

abbrev tried : PaymentAttempt
tried = record {
  id = 4;
  checkout_id = 9;
  provider = PaymentProviderCode.razorpay;
  status = AttemptStatus.pending;
  provider_order_id = codes "order_1";
  provider_payment_id = none;
  amount_minor = 49900;
  currency = "INR";
  verified_at = none;
  failure_message = none;
  created_at = 1000;
  deleted = false;
}

abbrev checkout : Checkout
checkout = record {
  id = 9;
  public_id = 100;
  status = CheckoutStatus.payment_pending;
  total_minor = 49900;
  currency = "INR";
  purchased_at = none;
  deleted = false;
}

abbrev state : Payments
state = record { attempts = tried ∷ []; events = []; checkouts = checkout ∷ [] }

abbrev paid : ℕ → VerifiedPayment
paid n = record {
  amount_minor = n;
  currency = "INR";
  event_key = codes "evt_1";
  payload_hash = [];
  order_id = codes "order_1";
  payment_id = some (codes "pay_1");
  status = PaymentStatus.verified;
}

found : (n : ℕ) → find_attempt PaymentProviderCode.razorpay (paid n) state ≡ some tried
unfolding find_attempt text_eq
found n = refl

apply_all-Keeps_example : Keeps state (
    apply_all
      (record { now = 2000; code = PaymentProviderCode.razorpay; result = paid 49900 }
        ∷ record { now = 3000; code = PaymentProviderCode.razorpay; result = paid 1 }
        ∷ [])
      state)
apply_all-Keeps_example =
    apply_all-Keeps
      (record { now = 2000; code = PaymentProviderCode.razorpay; result = paid 49900 }
        ∷ record { now = 3000; code = PaymentProviderCode.razorpay; result = paid 1 }
        ∷ [])
      state

apply-apply_example :
    (apply_provider_result 3000 PaymentProviderCode.razorpay
      (paid 49900)
      (apply_provider_result 2000 PaymentProviderCode.razorpay (paid 49900) state).1).1
    ≡ (apply_provider_result 2000 PaymentProviderCode.razorpay (paid 49900) state).1
apply-apply_example =
    apply-apply 2000 3000 PaymentProviderCode.razorpay (paid 49900) state tried (found 49900)

purchase_needs_payment_example :
    Pointwise
      (Completes tried (paid 49900))
      state.checkouts
      (apply_provider_result 2000 PaymentProviderCode.razorpay (paid 49900) state).1.checkouts
purchase_needs_payment_example =
    purchase_needs_payment 2000 PaymentProviderCode.razorpay (paid 49900) state tried (found 49900)

-- The purchase is completed by the message.
purchase_test :
    (apply_provider_result 2000 PaymentProviderCode.razorpay (paid 49900) state).1.checkouts
    ≡ record checkout { status = CheckoutStatus.workspace_setup_pending; purchased_at = some 2000 }
      ∷ []
unfolding apply_provider_result find_attempt text_eq accepted amount_matches
purchase_test = refl

payable : payable_checkout 100 state ≡ some checkout
unfolding payable_checkout
payable = refl
