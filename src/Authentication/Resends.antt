-- ===== src/Authentication/Resends.antt =====
-- src/controllers/AuthController.ts, resendOtp: the select with the delivery, and the update that
-- follows it.
use qubit_hosting_panel.Common.{
  ℕ, ◌+◌, ◌*◌, Bool, true, false, not, ◌||◌, Option, none, some, ◌++◌, ◌==◌, ltb, any,
  if◌then◌else◌,
}
use qubit_hosting_panel.Common.Text.{Text, codes}
use qubit_hosting_panel.Common.Table.{find, update_where}
use qubit_hosting_panel.Authentication.Model.{
  OtpChallenge, EventType, EventStatus, Accounts, OtpSettings, Crypto, require_otp_secret, hash_otp,
}
use qubit_hosting_panel.Authentication.Codes.{
  Answer, cannot_resend, resent, service_error, Delivery, should_reuse_otp_code, event, log,
}
use qubit_hosting_panel.Authentication.Requests.{Sender, is_open, is_present, text_of}

-- What resendOtp does once it has read the challenge: the new values of the code's columns are part
-- of it.
pub record CodeColumns : Type 0 where
  pub otp_hash : Text
  pub otp_salt : Text
  pub otp_ciphertext : Option Text
  pub provider_reference : Option Text
  pub expires_at : ℕ
  pub resend_available_at : ℕ

pub data ResendPlan : Type 0 where
  resend_refused resend_failed : ResendPlan
  write_code : OtpChallenge → Bool → CodeColumns → ResendPlan

abbrev pub set_code : CodeColumns → OtpChallenge → OtpChallenge
set_code v c = record c {
  otp_hash = v.otp_hash;
  otp_salt = v.otp_salt;
  otp_ciphertext = v.otp_ciphertext;
  provider_reference = v.provider_reference;
  expires_at = v.expires_at;
  resend_available_at = v.resend_available_at;
}

module _ (k : Crypto) (env : OtpSettings) (secret : Option Text) where
  -- The hash of the code: the stored one, or that of the new code with a new salt.
  abbrev pub resent_hash : Bool → OtpChallenge → Text → Delivery → Option Text
  resent_hash true c salt d = some c.otp_hash
  resent_hash false c salt d = elim (require_otp_secret secret) [
    | none ↦ none
    | some s ↦ some (hash_otp k d.code salt s)
  ]

  abbrev pub code_columns : Bool → OtpChallenge → Text → ℕ → Delivery → Text → Text → CodeColumns
  code_columns reuse c salt now d hash ciphertext = record {
    otp_hash = hash;
    otp_salt = if reuse then c.otp_salt else salt;
    otp_ciphertext = some ciphertext;
    provider_reference = d.provider_reference;
    expires_at = if reuse then c.expires_at else now + env.otp_ttl_minutes * 60000;
    resend_available_at = now + env.otp_resend_cooldown_seconds * 1000;
  }

  -- The new values, of the hash and the cipher of the code.
  unfoldable pub resend_columns :
      Bool → OtpChallenge → Text → ℕ → Delivery → Option Text → Option Text → ResendPlan
  resend_columns reuse c salt now d (some hash) (some ciphertext) =
      write_code c reuse (code_columns reuse c salt now d hash ciphertext)
  resend_columns reuse c salt now d _ _ = resend_failed

  abbrev pub resend_delivered : Bool → OtpChallenge → Text → ℕ → Option Delivery → ResendPlan
  resend_delivered reuse c salt now none = resend_failed
  resend_delivered reuse c salt now (some d) =
      resend_columns reuse c salt now d (resent_hash reuse c salt d) (k.encrypt d.code)

  abbrev pub send_current : Sender → Text → OtpChallenge → Text → ℕ → Option Text → ResendPlan
  send_current send target c salt now none = resend_failed
  send_current send target c salt now (some code) =
      resend_delivered true c salt now (send target (some code))

  -- The delivery: of the stored code as long as more than a minute is left, else of a new one.
  unfoldable pub resend_of : Sender → OtpChallenge → Text → ℕ → ResendPlan
  resend_of send c salt now =
      let target = text_of c.country_code ++ text_of c.mobile in
      if should_reuse_otp_code c.expires_at now (is_present c.otp_ciphertext)
      then send_current send target c salt now (k.decrypt (text_of c.otp_ciphertext))
      else resend_delivered false c salt now (send target none)

  unfoldable pub resend_found : Sender → Text → ℕ → Option OtpChallenge → ResendPlan
  resend_found send salt now none = resend_refused
  resend_found send salt now (some c) =
      if ltb now c.resend_available_at
        || not (is_present c.country_code)
        || not (is_present c.mobile)
      then resend_refused
      else resend_of send c salt now

  unfoldable pub begin_resend : Sender → ℕ → Text → ℕ → Accounts → ResendPlan
  begin_resend send id salt now acc =
      resend_found send salt now (find (is_open id now) acc.challenges)

abbrev pub resend_reason : Bool → Text
resend_reason true = codes "same_code_resent"
resend_reason false = codes "code_rotated"

unfoldable pub finish_resend : ResendPlan → Accounts → Answer × Accounts
finish_resend resend_refused acc = (cannot_resend, acc)
finish_resend resend_failed acc = (service_error, acc)
finish_resend (write_code c reuse columns) acc =
    if any (λ d. d.id == c.id) acc.challenges
    then (
      resent reuse c.id columns.expires_at columns.resend_available_at,
      log
          (event c.user_id (some c.id) EventType.otp_requested EventStatus.success
            (some (resend_reason reuse)))
          (record acc {
            challenges = update_where (λ d. d.id == c.id) (set_code columns) acc.challenges;
          }),
    )
    else (service_error, acc)

-- `resendOtp`
unfoldable pub resend_otp :
    Crypto → OtpSettings → Option Text → Sender → ℕ → Text → ℕ → Accounts → Answer × Accounts
resend_otp k env secret send id salt now acc =
    finish_resend (begin_resend k env secret send id salt now acc) acc
