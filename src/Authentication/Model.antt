-- ===== src/Authentication/Model.antt =====
-- src/db/schema/identity.ts and src/services/auth/otpCryptoService.ts: the rows of authentication, and
-- the hashes of the codes.
use qubit_hosting_panel.Common.{
  ℕ, ◌+◌, ◌-◌, ◌*◌, Bool, true, false, ◌&&◌, Option, none, some, List, [], ◌∷◌, ◌++◌, ◌==◌, ltb,
  leb, length, if◌then◌else◌,
}
use qubit_hosting_panel.Common.Text.{Text, codes, text_eq}
use qubit_hosting_panel.Sessions.{Session}

pub data DeliveryStatus : Type 0 where
  pending submitted failed : DeliveryStatus

pub record OtpChallenge : Type 0 where
  pub id : ℕ
  pub user_id : Option ℕ
  pub identity_hash : Text
  pub masked_destination : Text
  pub country_code : Option Text
  pub mobile : Option Text
  pub otp_hash : Text
  pub otp_salt : Text
  pub otp_ciphertext : Option Text
  pub delivery_status : DeliveryStatus
  pub provider_reference : Option Text
  pub attempt_count : ℕ
  pub max_attempts : ℕ
  pub expires_at : ℕ
  pub resend_available_at : ℕ
  pub consumed_at : Option ℕ
  pub deleted : Bool

pub data UserStatus : Type 0 where
  active inactive suspended : UserStatus

pub record User : Type 0 where
  pub id : ℕ
  pub country_code : Text
  pub mobile : Text
  pub status : UserStatus
  pub token_version : ℕ
  pub mobile_verified_at : Option ℕ
  pub deleted : Bool

pub record Customer : Type 0 where
  pub id : ℕ
  pub user_id : ℕ
  pub deleted : Bool

pub data EventType : Type 0 where
  otp_requested otp_delivery_failed otp_verification_failed login_succeeded : EventType
  refresh_succeeded session_revoked context_switched : EventType

pub data EventStatus : Type 0 where
  success failure : EventStatus

pub record AuthenticationEvent : Type 0 where
  pub user_id : Option ℕ
  pub challenge_id : Option ℕ
  pub type : EventType
  pub status : EventStatus
  pub reason : Option Text

pub record AuthenticationHandoff : Type 0 where
  pub user_id : ℕ
  pub source_session_id : ℕ
  pub token_hash : Text
  pub target_origin : Text
  pub target_path : Text
  pub expires_at : ℕ
  pub consumed_at : Option ℕ
  pub deleted : Bool

-- The tables that authentication reads and writes.
pub record Accounts : Type 0 where
  pub challenges : List OtpChallenge
  pub users : List User
  pub customers : List Customer
  pub sessions : List Session
  pub events : List AuthenticationEvent

abbrev pub is_submitted : DeliveryStatus → Bool
is_submitted DeliveryStatus.submitted = true
is_submitted _ = false

abbrev pub is_active : UserStatus → Bool
is_active UserStatus.active = true
is_active _ = false

-- What the environment says of codes and sessions.
pub record OtpSettings : Type 0 where
  pub otp_ttl_minutes : ℕ
  pub otp_resend_cooldown_seconds : ℕ
  pub otp_max_attempts : ℕ
  pub refresh_token_ttl_days : ℕ

-- The keyed digest in hexadecimal, and encryptCredential and decryptCredential for stored codes; `none`
-- is a thrown error, as where the environment has no key.
pub record Crypto : Type 0 where
  pub hmac : Text → Text → Text
  pub encrypt : Text → Option Text
  pub decrypt : Text → Option Text

-- `requireOtpSecret`; `none` is a thrown error.
unfoldable pub require_otp_secret : Option Text → Option Text
require_otp_secret none = none
require_otp_secret (some value) = if ltb (length value) 32 then none else some value

-- The value of a hexadecimal digit.
unfoldable pub hex_digit : ℕ → Option ℕ
hex_digit c =
    if leb b'0' c && leb c b'9'
    then some (c - 48)
    else (if leb b'a' c && leb c b'f'
        then some (c - 87)
        else (if leb b'A' c && leb c b'F' then some (c - 55) else none))

abbrev pub hex_byte : Option ℕ → Option ℕ → List ℕ → List ℕ
hex_byte (some a) (some b) rest = (16 * a + b) ∷ rest
hex_byte _ _ rest = []

-- `Buffer.from(text, 'hex')`: it ends at the first pair that is not of digits.
unfoldable pub from_hex : Text → List ℕ
from_hex [] = []
from_hex (a ∷ []) = []
from_hex (a ∷ b ∷ s) = let rest = from_hex s in hex_byte (hex_digit a) (hex_digit b) rest

module _ (k : Crypto) where
  unfoldable pub hash_otp : Text → Text → Text → Text
  hash_otp otp salt secret = k.hmac secret (salt ++ codes ":" ++ otp)

  unfoldable pub hash_sensitive_value : Text → Text → Text
  hash_sensitive_value value secret = k.hmac secret value

  unfoldable pub verify_otp_hash : Text → Text → Text → Text → Bool
  verify_otp_hash otp salt expected_hash secret =
      let actual = from_hex (hash_otp otp salt secret) in
      let expected = from_hex expected_hash in
      length actual == length expected && text_eq actual expected

-- `ensureCustomer`, for a fresh id: a thrown error where the user is gone.
abbrev pub ensured_customer : ℕ → ℕ → Bool → Bool → List Customer → Option (List Customer)
ensured_customer id user false has_customer rows = none
ensured_customer id user true true rows = some rows
ensured_customer id user true false rows =
    let created : Customer = record { id = id; user_id = user; deleted = false } in
    some (rows ++ created ∷ [])
