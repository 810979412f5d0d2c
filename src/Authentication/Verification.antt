-- ===== src/Authentication/Verification.antt =====
-- src/controllers/AuthController.ts, verifyOtp: the comparison of a code with the challenge that was
-- read, and the writes that follow it.
use qubit_hosting_panel.Common.{
  ℕ, ◌+◌, Bool, true, false, not, ◌&&◌, Option, none, some, List, [], ◌∷◌, ◌++◌, ◌==◌, leb, any,
  is_some, if◌then◌else◌,
}
use qubit_hosting_panel.Common.Text.{Text, text_eq}
use qubit_hosting_panel.Common.Table.{find, update_where}
use qubit_hosting_panel.Sessions.{RequestMetadata}
use qubit_hosting_panel.Authentication.Model.{
  OtpChallenge, UserStatus, User, EventType, EventStatus, Accounts, OtpSettings, Crypto, is_active,
  require_otp_secret, verify_otp_hash,
}
use qubit_hosting_panel.Authentication.Codes.{
  Answer, otp_invalid, account_inactive, service_error, Secrets, Fresh, event, log, create_session,
  ensure_customer, answer_session,
}
use qubit_hosting_panel.Authentication.Requests.{is_open, is_present, text_of}

-- The challenge that was read, and whether the code is its own.
pub data Verification : Type 0 where
  verification_refused verification_failed : Verification
  mismatched matched : OtpChallenge → Verification

pub record VerifyOtpInput : Type 0 where
  pub challenge_id : ℕ
  pub otp : Text

module _ (k : Crypto) where
  unfoldable pub compare_otp : Text → OtpChallenge → Option Text → Verification
  compare_otp otp c none = verification_failed
  compare_otp otp c (some secret) =
      if verify_otp_hash k otp c.otp_salt c.otp_hash secret then matched c else mismatched c

  unfoldable pub verify_found : Option Text → Text → Option OtpChallenge → Verification
  verify_found secret otp none = verification_refused
  verify_found secret otp (some c) =
      if leb c.max_attempts c.attempt_count
      then verification_refused
      else compare_otp otp c (require_otp_secret secret)

  unfoldable pub begin_verification : Secrets → VerifyOtpInput → ℕ → Accounts → Verification
  begin_verification secrets input now acc =
      verify_found secrets.otp_hash_secret input.otp
        (find (is_open input.challenge_id now) acc.challenges)

-- The attempts are written from the challenge that was read.
unfoldable pub record_failure : OtpChallenge → Accounts → Accounts
record_failure c acc =
    log (event c.user_id (some c.id) EventType.otp_verification_failed EventStatus.failure none)
      (record acc {
        challenges =
            update_where (λ d. d.id == c.id) (λ d. record d { attempt_count = c.attempt_count + 1 })
              acc.challenges;
      })

abbrev pub is_active_user : ℕ → User → Bool
is_active_user id u = u.id == id && is_active u.status && not u.deleted

-- The check before the transaction.
abbrev pub may_sign_in : Option ℕ → List User → Bool
may_sign_in none users = true
may_sign_in (some id) users = any (is_active_user id) users

abbrev pub consumable : ℕ → OtpChallenge → Bool
consumable id c = c.id == id && not (is_some c.consumed_at)

abbrev pub consume : ℕ → OtpChallenge → OtpChallenge
consume now c = record c { consumed_at = some now; otp_ciphertext = none }

abbrev pub find_linked : Option ℕ → List User → Option User
find_linked none users = none
find_linked (some id) users = find (is_active_user id) users

abbrev pub has_identity : Text → Text → User → Bool
has_identity country mobile u =
    text_eq u.country_code country && text_eq u.mobile mobile && not u.deleted

-- The user found by the identity, or a new one.
unfoldable pub found_or_new :
    Text → Text → ℕ → ℕ → Option User → List User → Option (User × List User)
found_or_new country mobile id now (some u) users = some (u, users)
found_or_new country mobile id now none users =
    let created : User = record {
      id = id;
      country_code = country;
      mobile = mobile;
      status = UserStatus.active;
      token_version = 1;
      mobile_verified_at = some now;
      deleted = false;
    } in
    if any (λ u. u.id == id) users then none else some (created, users ++ created ∷ [])

unfoldable pub registered :
    OtpChallenge → ℕ → ℕ → Option User → List User → Option (User × List User)
registered c id now (some u) users = some (u, users)
registered c id now none users =
    let country = text_of c.country_code in
    let mobile = text_of c.mobile in
    if is_present c.country_code && is_present c.mobile
    then found_or_new country mobile id now (find (has_identity country mobile) users) users
    else none

module _ (k : Crypto) (env : OtpSettings) (secrets : Secrets) where
  -- The rest of the transaction after the challenge is consumed; `none` is a thrown error.
  abbrev pub provisioned : User → Option Accounts → Option (User × Accounts)
  provisioned u none = none
  provisioned u (some acc) = some (u, acc)

  unfoldable pub authenticate_user :
      Fresh → ℕ → Accounts → Option (User × List User) → Option (User × Accounts)
  authenticate_user fresh now acc none = none
  authenticate_user fresh now acc (some (u, users)) =
      if is_active u.status
      then provisioned u (
          ensure_customer k env fresh.customer_id u.id (record acc {
            users =
                update_where (λ v. v.id == u.id) (λ v. record v { mobile_verified_at = some now })
                  users;
          }))
      else none

  -- The transaction.
  unfoldable pub consume_challenge : Fresh → ℕ → OtpChallenge → Accounts → Option (User × Accounts)
  consume_challenge fresh now c acc =
      if any (consumable c.id) acc.challenges
      then authenticate_user fresh now
          (record acc { challenges = update_where (consumable c.id) (consume now) acc.challenges })
          (registered c fresh.user_id now (find_linked c.user_id acc.users) acc.users)
      else none

  -- What follows the transaction; a thrown error leaves the tables as they were before it.
  unfoldable pub sign_in :
      RequestMetadata
      → Fresh
      → ℕ
      → OtpChallenge
      → Accounts
      → Option (User × Accounts)
      → Answer × Accounts
  sign_in md fresh now c before none = (service_error, before)
  sign_in md fresh now c before (some (u, acc)) =
      answer_session k env u fresh
        (event (some u.id) (some c.id) EventType.login_succeeded EventStatus.success none) acc
        (create_session k env secrets md now fresh u.id u.token_version acc)

  unfoldable pub finish_verification :
      RequestMetadata → Fresh → ℕ → Verification → Accounts → Answer × Accounts
  finish_verification md fresh now verification_refused acc = (otp_invalid, acc)
  finish_verification md fresh now verification_failed acc = (service_error, acc)
  finish_verification md fresh now (mismatched c) acc = (otp_invalid, record_failure c acc)
  finish_verification md fresh now (matched c) acc =
      if may_sign_in c.user_id acc.users
      then sign_in md fresh now c acc (consume_challenge fresh now c acc)
      else (account_inactive, acc)

  -- `verifyOtp`
  unfoldable pub verify_otp :
      RequestMetadata → VerifyOtpInput → Fresh → ℕ → Accounts → Answer × Accounts
  verify_otp md input fresh now acc =
      finish_verification md fresh now (begin_verification k secrets input now acc) acc
