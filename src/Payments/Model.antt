-- ===== src/Payments/Model.antt =====
-- The rows of src/db/schema/payments.ts and the messages of src/services/payments/PaymentProvider.ts.
use Prim.Native.String.{String}
use qubit_hosting_panel.Common.{ℕ, Bool, Option, List}
use qubit_hosting_panel.Common.Text.{Text}
use qubit_hosting_panel.Provisioning.Model.{CheckoutStatus}

pub data PaymentProviderCode : Type 0 where
  mock payu razorpay : PaymentProviderCode

pub data AttemptStatus : Type 0 where
  initiated pending verified failed cancelled : AttemptStatus

-- `VerifiedPayment['status']`
pub data PaymentStatus : Type 0 where
  verified pending failed cancelled : PaymentStatus

pub data EventStatus : Type 0 where
  processed rejected : EventStatus

-- What a provider's verified message says; the hash of the payload is taken outside.
pub record VerifiedPayment : Type 0 where
  pub amount_minor : ℕ
  pub currency : String
  pub event_key : Text
  pub payload_hash : Text
  pub order_id : Text
  pub payment_id : Option Text
  pub status : PaymentStatus

pub record PaymentAttempt : Type 0 where
  pub id : ℕ
  pub checkout_id : ℕ
  pub provider : PaymentProviderCode
  pub status : AttemptStatus
  pub provider_order_id : Text
  pub provider_payment_id : Option Text
  pub amount_minor : ℕ
  pub currency : String
  pub verified_at : Option ℕ
  pub failure_message : Option Text
  pub created_at : ℕ
  pub deleted : Bool

pub record WebhookEvent : Type 0 where
  pub attempt_id : ℕ
  pub provider : PaymentProviderCode
  pub event_key : Text
  pub status : EventStatus

pub record Checkout : Type 0 where
  pub id : ℕ
  pub public_id : ℕ
  pub status : CheckoutStatus
  pub total_minor : ℕ
  pub currency : String
  pub purchased_at : Option ℕ
  pub deleted : Bool

pub record Payments : Type 0 where
  pub attempts : List PaymentAttempt
  pub events : List WebhookEvent
  pub checkouts : List Checkout
