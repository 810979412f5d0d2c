-- ===== src/Authentication/Codes.antt =====
-- src/controllers/AuthController.ts, requestOtp and resendOtp: how a one-time code is issued and sent
-- again.
use qubit_hosting_panel.Common.{
  ℕ, zero, suc, ◌+◌, ◌-◌, ◌*◌, Bool, true, false, not, ◌&&◌, ◌||◌, Option, none, some, List, [],
  ◌∷◌, ◌++◌, ◌==◌, ltb, leb, any, length, drop, if◌then◌else◌,
}
use qubit_hosting_panel.Common.Text.{Text, codes, text_eq, starts_with, to_lower}
use qubit_hosting_panel.Sessions.{SessionContext, Session, RequestMetadata}
use qubit_hosting_panel.Authentication.Model.{
  User, Customer, EventType, EventStatus, AuthenticationEvent, Accounts, OtpSettings, Crypto,
  is_active, require_otp_secret, ensured_customer,
}

pub data Answer : Type 0 where
  challenge_issued : ℕ → ℕ → ℕ → Answer
  bypass_unavailable cannot_resend : Answer
  resent : Bool → ℕ → ℕ → ℕ → Answer
  otp_invalid account_inactive : Answer
  signed_in : User → ℕ → Text → Answer
  service_error : Answer

pub record Delivery : Type 0 where
  pub code : Text
  pub provider_reference : Option Text

pub record RequestOtpInput : Type 0 where
  pub mobile : Text
  pub country_code : Option Text

-- The secrets of the environment.
pub record Secrets : Type 0 where
  pub otp_hash_secret : Option Text
  pub jwt_refresh_secret : Option Text

-- What the server draws at random for one request.
pub record Fresh : Type 0 where
  pub challenge_id : ℕ
  pub user_id : ℕ
  pub customer_id : ℕ
  pub session_id : ℕ
  pub otp_code : Text
  pub otp_salt : Text
  pub refresh_token : Text

-- What decides on the development bypass: the environment and the host name of the request.
pub record DevelopmentRuntime : Type 0 where
  pub enable_dev_auth_bypass : Option Text
  pub app_env : Text
  pub node_env : Option Text
  pub hostname : Option Text

abbrev pub stars : ℕ → Text
stars zero = []
stars (suc n) = 42 ∷ stars n

unfoldable pub mask_mobile : Text → Text
mask_mobile value =
    if leb (length value) 4
    then stars (length value)
    else stars (length value - 4) ++ drop (length value - 4) value

unfoldable pub should_reuse_otp_code : ℕ → ℕ → Bool → Bool
should_reuse_otp_code expires_at now has_ciphertext = has_ciphertext && ltb (now + 60000) expires_at

unfoldable pub parse_development_auth_mobile : Text → Bool × Text
parse_development_auth_mobile mobile =
    let bypass = starts_with (codes "~~") mobile in
    (bypass, if bypass then drop 2 mobile else mobile)

abbrev pub is_text : Option Text → Text → Bool
is_text none t = false
is_text (some s) t = text_eq s t

abbrev pub is_local_host : Option Text → Bool
is_local_host none = false
is_local_host (some h) =
    text_eq (to_lower h) (codes "localhost")
    || text_eq (to_lower h) (codes "127.0.0.1")
    || text_eq (to_lower h) (codes "[::1]")
    || text_eq (to_lower h) (codes "::1")

-- With `none` for the host name there is no request.
unfoldable pub can_use_development_auth_bypass : DevelopmentRuntime → Bool
can_use_development_auth_bypass r =
    is_text r.enable_dev_auth_bypass (codes "true")
    && text_eq r.app_env (codes "development")
    && is_text r.node_env (codes "development")
    && is_local_host r.hostname

abbrev pub digits_of : Text → Text
digits_of [] = []
digits_of (c ∷ s) = let rest = digits_of s in if leb b'0' c && leb c b'9' then c ∷ rest else rest

-- `input.countryCode ? ... : undefined`
abbrev pub calling_code : Option Text → Option Text
calling_code none = none
calling_code (some []) = none
calling_code (some (c ∷ s)) = some (43 ∷ digits_of (c ∷ s))

abbrev pub matches_country : Option Text → Text → Bool
matches_country none t = true
matches_country (some c) t = text_eq t c

unfoldable pub is_candidate : Option Text → Text → User → Bool
is_candidate country mobile u =
    text_eq u.mobile mobile
    && matches_country country u.country_code
    && is_active u.status
    && not u.deleted

module _ {A : Type 0} where
  -- The row of a query with `limit(2)`, where it is the only one.
  abbrev pub unique_where : (A → Bool) → List A → Option A
  unique_where p [] = none
  unique_where p (x ∷ xs) =
      let rest = unique_where p xs in if p x then (if any p xs then none else some x) else rest

abbrev pub event : Option ℕ → Option ℕ → EventType → EventStatus → Option Text → AuthenticationEvent
event user challenge type status reason = record {
  user_id = user;
  challenge_id = challenge;
  type = type;
  status = status;
  reason = reason;
}

abbrev pub log : AuthenticationEvent → Accounts → Accounts
log e acc = record acc { events = acc.events ++ e ∷ [] }

-- The insert meets the primary key and the unique index on the hash.
unfoldable pub insert_session : Session → List Session → Option (List Session)
insert_session s rows =
    if any (λ t. t.id == s.id || text_eq t.refresh_token_hash s.refresh_token_hash) rows
    then none
    else some (rows ++ s ∷ [])

abbrev pub with_sessions : Accounts → Option (List Session) → Option Accounts
with_sessions acc none = none
with_sessions acc (some rows) = some (record acc { sessions = rows })

abbrev pub with_customers : Accounts → Option (List Customer) → Option Accounts
with_customers acc none = none
with_customers acc (some rows) = some (record acc { customers = rows })

abbrev pub new_session : OtpSettings → RequestMetadata → ℕ → ℕ → Text → ℕ → ℕ → Session
new_session env md now id hash user version = record {
  id = id;
  user_id = user;
  refresh_token_hash = hash;
  token_version = version;
  active_context_type = SessionContext.personal;
  device_label = none;
  ip_address = md.ip_address;
  user_agent = md.user_agent;
  last_active_at = now;
  expires_at = now + env.refresh_token_ttl_days * 86400000;
  revoked_at = none;
  revoke_reason = none;
  deleted = false;
}

module _ (k : Crypto) (env : OtpSettings) where
  -- `hashRefreshToken`; `none` is a thrown error.
  unfoldable pub hash_refresh_token : Option Text → Text → Option Text
  hash_refresh_token secret token = elim (require_otp_secret secret) [
    | none ↦ none
    | some s ↦ some (k.hmac s token)
  ]

  unfoldable pub insert_hashed :
      RequestMetadata → ℕ → ℕ → ℕ → ℕ → Option Text → Accounts → Option Accounts
  insert_hashed md now id user version none acc = none
  insert_hashed md now id user version (some hash) acc =
      with_sessions acc (insert_session (new_session env md now id hash user version) acc.sessions)

  -- `createSession`; `none` is a thrown error.
  unfoldable pub create_session :
      Secrets → RequestMetadata → ℕ → Fresh → ℕ → ℕ → Accounts → Option Accounts
  create_session secrets md now fresh user version acc =
      insert_hashed md now fresh.session_id user version
        (hash_refresh_token secrets.jwt_refresh_secret fresh.refresh_token) acc

  -- The customer profile of a user; `none` is a thrown error.
  unfoldable pub ensure_customer : ℕ → ℕ → Accounts → Option Accounts
  ensure_customer id user acc = with_customers acc (
      ensured_customer id user (any (λ u. u.id == user && not u.deleted) acc.users)
        (any (λ c. c.user_id == user && not c.deleted) acc.customers) acc.customers)

  -- The event and the answer after `createSession`.
  unfoldable pub answer_session :
      User → Fresh → AuthenticationEvent → Accounts → Option Accounts → Answer × Accounts
  answer_session u fresh e before none = (service_error, before)
  answer_session u fresh e before (some acc) =
      (signed_in u fresh.session_id fresh.refresh_token, log e acc)
