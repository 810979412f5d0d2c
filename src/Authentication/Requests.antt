-- ===== src/Authentication/Requests.antt =====
-- src/controllers/AuthController.ts: requestOtp with its development bypass, and resendOtp.
use qubit_hosting_panel.Common.{
  ℕ, ◌+◌, ◌*◌, Bool, true, false, not, ◌&&◌, Option, none, some, List, [], ◌∷◌, ◌++◌, ◌==◌, ltb,
  any, is_some, if◌then◌else◌,
}
use qubit_hosting_panel.Common.Text.{Text, codes, text_eq, is_empty}
use qubit_hosting_panel.Common.Table.{find}
use qubit_hosting_panel.Sessions.{RequestMetadata}
use qubit_hosting_panel.Authentication.Model.{
  DeliveryStatus, OtpChallenge, User, EventType, EventStatus, Accounts, OtpSettings, Crypto,
  is_submitted, require_otp_secret, hash_otp, hash_sensitive_value,
}
use qubit_hosting_panel.Authentication.Codes.{
  Answer, challenge_issued, bypass_unavailable, service_error, Delivery, RequestOtpInput, Secrets,
  Fresh, DevelopmentRuntime, mask_mobile, parse_development_auth_mobile,
  can_use_development_auth_bypass, calling_code, is_candidate, unique_where, event, log,
  create_session, ensure_customer, answer_session,
}

-- The delivery of a code to an address, by a new code or by the one given; `none` is a thrown error.
abbrev pub Sender : Type 0
Sender = Text → Option Text → Option Delivery

abbrev pub in_cooldown : Text → ℕ → OtpChallenge → Bool
in_cooldown identity_hash now c =
    text_eq c.identity_hash identity_hash && not c.deleted && ltb now c.resend_available_at

abbrev pub identity_of : Option Text → Text → Text
identity_of none mobile = mobile
identity_of (some country) mobile = country ++ mobile

-- `user ? ... : countryCode ? identityKey : undefined`
abbrev pub delivery_target : Option User → Option Text → Text → Option Text
delivery_target (some u) country mobile = some (u.country_code ++ u.mobile)
delivery_target none none mobile = none
delivery_target none (some country) mobile = some (country ++ mobile)

abbrev pub deliver : Sender → Option Text → Option Delivery
deliver send none = none
deliver send (some target) = send target none

-- `resolveMobileCountry`: whether a national number needs a country, which it does not where it
-- names one account.
unfoldable pub country_code_required : Text → List User → Bool
country_code_required mobile users = not (is_some (unique_where (is_candidate none mobile) users))

abbrev pub user_id_of : Option User → Option ℕ
user_id_of none = none
user_id_of (some u) = some u.id

-- The code that is stored: the delivered one, or a random text that nobody was sent.
abbrev pub generated_code : Option Delivery → Text → Text
generated_code none random = random
generated_code (some d) random = d.code

abbrev pub status_of : Option Delivery → DeliveryStatus
status_of none = DeliveryStatus.failed
status_of (some d) = DeliveryStatus.submitted

abbrev pub reference_of : Option Delivery → Option Text
reference_of none = none
reference_of (some d) = d.provider_reference

-- The event of a request.
abbrev pub delivery_event : Option Delivery → EventType
delivery_event none = EventType.otp_delivery_failed
delivery_event (some d) = EventType.otp_requested

abbrev pub delivery_result : Option Delivery → EventStatus
delivery_result none = EventStatus.failure
delivery_result (some d) = EventStatus.success

abbrev pub is_bypass_user : Option Text → Text → User → Bool
is_bypass_user country mobile u = is_candidate country mobile u && is_some u.mobile_verified_at

abbrev pub stored_cipher : Option Text → Option (Option Text)
stored_cipher none = none
stored_cipher (some c) = some (some c)

module _ (k : Crypto) (env : OtpSettings) (secrets : Secrets) where
  -- The stored cipher of the code that was delivered; the outer `none` is a thrown error.
  abbrev pub ciphertext_of : Option Delivery → Option (Option Text)
  ciphertext_of none = some none
  ciphertext_of (some d) = stored_cipher (k.encrypt d.code)

  unfoldable pub new_challenge :
      Text
      → Option Text
      → Text
      → Fresh
      → ℕ
      → Option User
      → Option Delivery
      → Option Text
      → OtpChallenge
  new_challenge secret country mobile fresh now user delivery ciphertext = record {
    id = fresh.challenge_id;
    user_id = user_id_of user;
    identity_hash = hash_sensitive_value k (identity_of country mobile) secret;
    masked_destination = mask_mobile (identity_of country mobile);
    country_code = country;
    mobile = some mobile;
    otp_hash = hash_otp k (generated_code delivery fresh.otp_code) fresh.otp_salt secret;
    otp_salt = fresh.otp_salt;
    otp_ciphertext = ciphertext;
    delivery_status = status_of delivery;
    provider_reference = reference_of delivery;
    attempt_count = 0;
    max_attempts = env.otp_max_attempts;
    expires_at = now + env.otp_ttl_minutes * 60000;
    resend_available_at = now + env.otp_resend_cooldown_seconds * 1000;
    consumed_at = none;
    deleted = false;
  }

  -- The insert, which meets the primary key, and the event.
  unfoldable pub issue_challenge : OtpChallenge → Option Delivery → Accounts → Answer × Accounts
  issue_challenge c delivery acc =
      if any (λ d. d.id == c.id) acc.challenges then (service_error, acc) else (
        challenge_issued c.id c.expires_at c.resend_available_at,
        log (event c.user_id (some c.id) (delivery_event delivery) (delivery_result delivery) none)
            (record acc { challenges = acc.challenges ++ c ∷ [] }),
      )

  unfoldable pub issue_sealed :
      Text
      → Option Text
      → Text
      → Fresh
      → ℕ
      → Option User
      → Option Delivery
      → Option (Option Text)
      → Accounts
      → Answer × Accounts
  issue_sealed secret country mobile fresh now user delivery none acc = (service_error, acc)
  issue_sealed secret country mobile fresh now user delivery (some ciphertext) acc =
      issue_challenge (new_challenge secret country mobile fresh now user delivery ciphertext)
        delivery acc

  unfoldable pub request_for :
      Text → Option Text → Text → Sender → Fresh → ℕ → Option User → Accounts → Answer × Accounts
  request_for secret country mobile send fresh now user acc =
      let delivery = deliver send (delivery_target user country mobile) in
      issue_sealed secret country mobile fresh now user delivery (ciphertext_of delivery) acc

  -- A challenge of the same identity that was sent a short time ago is answered again.
  unfoldable pub request_unless :
      Text
      → Option Text
      → Text
      → Sender
      → Fresh
      → ℕ
      → Option OtpChallenge
      → Accounts
      → Answer × Accounts
  request_unless secret country mobile send fresh now (some c) acc =
      (challenge_issued c.id c.expires_at c.resend_available_at, acc)
  request_unless secret country mobile send fresh now none acc =
      request_for secret country mobile send fresh now
        (unique_where (is_candidate country mobile) acc.users) acc

  unfoldable pub bypass_with :
      RequestMetadata → Fresh → ℕ → User → Accounts → Option Accounts → Answer × Accounts
  bypass_with md fresh now u before none = (service_error, before)
  bypass_with md fresh now u before (some acc) =
      answer_session k env u fresh
        (event (some u.id) none EventType.login_succeeded EventStatus.success
          (some (codes "development_bypass")))
        acc (create_session k env secrets md now fresh u.id u.token_version acc)

  unfoldable pub bypass_as :
      RequestMetadata → Fresh → ℕ → Option User → Accounts → Answer × Accounts
  bypass_as md fresh now none acc = (bypass_unavailable, acc)
  bypass_as md fresh now (some u) acc =
      bypass_with md fresh now u acc (ensure_customer k env fresh.customer_id u.id acc)

  unfoldable pub bypass :
      DevelopmentRuntime
      → Option Text
      → Text
      → RequestMetadata
      → Fresh
      → ℕ
      → Accounts
      → Answer × Accounts
  bypass runtime country mobile md fresh now acc =
      if can_use_development_auth_bypass runtime
      then bypass_as md fresh now (unique_where (is_bypass_user country mobile) acc.users) acc
      else (bypass_unavailable, acc)

  unfoldable pub request_otp_with :
      DevelopmentRuntime
      → Bool × Text
      → Option Text
      → RequestMetadata
      → Sender
      → Fresh
      → ℕ
      → Option Text
      → Accounts
      → Answer × Accounts
  request_otp_with runtime parsed country md send fresh now none acc = (service_error, acc)
  request_otp_with runtime (true, mobile) country md send fresh now (some secret) acc =
      bypass runtime country mobile md fresh now acc
  request_otp_with runtime (false, mobile) country md send fresh now (some secret) acc =
      request_unless secret country mobile send fresh now
        (find (in_cooldown (hash_sensitive_value k (identity_of country mobile) secret) now)
          acc.challenges)
        acc

  -- `requestOtp`
  unfoldable pub request_otp :
      DevelopmentRuntime
      → RequestOtpInput
      → RequestMetadata
      → Sender
      → Fresh
      → ℕ
      → Accounts
      → Answer × Accounts
  request_otp runtime input md send fresh now acc =
      request_otp_with runtime (parse_development_auth_mobile input.mobile)
        (calling_code input.country_code) md send fresh now
        (require_otp_secret secrets.otp_hash_secret) acc

-- The `where` that resendOtp and verifyOtp share.
unfoldable pub is_open : ℕ → ℕ → OtpChallenge → Bool
is_open id now c =
    c.id == id
    && is_submitted c.delivery_status
    && not (is_some c.consumed_at)
    && not c.deleted
    && ltb now c.expires_at

abbrev pub text_of : Option Text → Text
text_of none = []
text_of (some t) = t

-- A nullable text that is there and not empty.
abbrev pub is_present : Option Text → Bool
is_present t = not (is_empty (text_of t))
