-- ===== src/Authentication/Tests.antt =====
-- One account that asks for a code, and its session.
use qubit_hosting_panel.Common.{
  ℕ, ◌+◌, ◌/◌, ◌%◌, ◌≤◌, ◌≡◌, refl, arith, true, none, some, List, [], ◌∷◌, ltb, All, if◌then◌else◌,
}
use qubit_hosting_panel.Common.Text.{Text, codes, text_eq, starts_with}
use qubit_hosting_panel.Authentication.Model.{
  OtpChallenge, Accounts, Crypto, require_otp_secret, hex_digit, from_hex, hash_otp,
  hash_sensitive_value, verify_otp_hash,
}
use qubit_hosting_panel.Authentication.Codes.{
  service_error, challenge_issued, signed_in, Delivery, RequestOtpInput, DevelopmentRuntime,
  mask_mobile, should_reuse_otp_code, parse_development_auth_mobile, is_candidate, insert_session,
  hash_refresh_token, insert_hashed, create_session, ensure_customer, answer_session,
}
use qubit_hosting_panel.Authentication.Requests.{
  Sender, new_challenge, issue_challenge, issue_sealed, request_for, request_unless,
  request_otp_with, request_otp, is_open,
}
use qubit_hosting_panel.Authentication.Resends.{
  CodeColumns, write_code, resend_columns, resend_of, resend_found, begin_resend,
}
use qubit_hosting_panel.Authentication.Verification.{
  VerifyOtpInput, mismatched, matched, compare_otp, verify_found, begin_verification,
  consume_challenge, authenticate_user, registered, found_or_new, sign_in, finish_verification,
  verify_otp,
}
use qubit_hosting_panel.Authentication.Writes.{
  Write, write_request, write_verification, perform_writes,
}
use qubit_hosting_panel.Authentication.Allowance.{SignsInOnce}
use qubit_hosting_panel.Authentication.Once.{perform_writes-SignsInOnce}
use qubit_hosting_panel.Authentication.Attempts.{
  OtpRequest, ask_code, ask_again, try_code, serve_otps, failures, WithinAttempts,
}
use qubit_hosting_panel.Authentication.Bounded.{serve_otps-WithinAttempts}
use qubit_hosting_panel.Authentication.Parallel.{OneMore, verify_together, verify_together-OneMore}
use qubit_hosting_panel.Authentication.Unkeyed.{unkeyed_reveals_accounts}
use qubit_hosting_panel.Authentication.Uniform.{request_otp-uniform}
use qubit_hosting_panel.Authentication.Admitted.{Admits, SignsIn, verify_otp-Admits}
use qubit_hosting_panel.Authentication.Resent.{Resends, begin_resend-Resends}
use qubit_hosting_panel.Authentication.Samples.{
  settings, long_secret, secrets, user, metadata, fresh,
}

abbrev hex_char : ℕ → ℕ
hex_char n = if ltb n 10 then n + 48 else n + 87

abbrev to_hex : Text → Text
to_hex [] = []
to_hex (c ∷ s) = hex_char (c / 16) ∷ hex_char (c % 16) ∷ to_hex s

abbrev crypto : Crypto
crypto = record { hmac = λ s t. to_hex t; encrypt = λ t. some t; decrypt = λ t. some t }

abbrev empty_accounts : Accounts
empty_accounts = record {
  challenges = [];
  users = user ∷ [];
  customers = [];
  sessions = [];
  events = [];
}

abbrev runtime : DevelopmentRuntime
runtime = record {
  enable_dev_auth_bypass = none;
  app_env = codes "production";
  node_env = none;
  hostname = none;
}

abbrev national : RequestOtpInput
national = record { mobile = codes "98"; country_code = none }

abbrev prefixed : RequestOtpInput
prefixed = record { mobile = codes "98"; country_code = some (codes "91") }

abbrev send : Sender
send target code = some (record { code = codes "1234"; provider_reference = none })

abbrev no_delivery : Sender
no_delivery target code = none

abbrev requested : Accounts
requested =
    (request_otp crypto settings secrets runtime prefixed metadata send fresh 1000 empty_accounts).1

abbrev right_code : VerifyOtpInput
right_code = record { challenge_id = 1; otp = codes "1234" }

abbrev wrong_code : VerifyOtpInput
wrong_code = record { challenge_id = 1; otp = codes "0" }

request_test :
    (request_otp crypto settings secrets runtime prefixed metadata send fresh 1000 empty_accounts).0
    ≡ challenge_issued 1 601000 61000
unfolding request_otp request_otp_with request_unless request_for new_challenge issue_challenge
    issue_sealed require_otp_secret parse_development_auth_mobile starts_with hash_sensitive_value
    is_candidate text_eq
request_test = refl

verify_test :
    (verify_otp crypto settings secrets metadata right_code fresh 2000 requested).0
    ≡ signed_in user 40 (codes "r")
unfolding verify_otp begin_verification finish_verification verify_found compare_otp verify_otp_hash
    hash_otp from_hex hex_digit text_eq is_open request_otp request_otp_with request_unless
    request_for new_challenge issue_challenge issue_sealed require_otp_secret
    parse_development_auth_mobile starts_with hash_sensitive_value is_candidate consume_challenge
    authenticate_user registered found_or_new ensure_customer sign_in create_session insert_hashed
    hash_refresh_token insert_session answer_session mask_mobile
verify_test = refl

abbrev delivery : Delivery
delivery = record { code = codes "1234"; provider_reference = none }

-- The challenge that the request makes.
abbrev challenge : OtpChallenge
challenge =
    new_challenge crypto settings secrets long_secret (some (codes "+91")) (codes "98") fresh 1000
      (some user) (some delivery) (some (codes "1234"))

wrong_test : begin_verification crypto secrets wrong_code 2000 requested ≡ mismatched challenge
unfolding begin_verification verify_found compare_otp verify_otp_hash hash_otp from_hex hex_digit
    text_eq is_open request_otp request_otp_with request_unless request_for new_challenge
    issue_sealed issue_challenge require_otp_secret parse_development_auth_mobile starts_with
    hash_sensitive_value is_candidate mask_mobile
wrong_test = refl

abbrev some_writes : List Write
some_writes =
    write_request runtime prefixed metadata send fresh 1000
    ∷ write_verification metadata fresh 2000 (matched challenge)
    ∷ write_verification metadata fresh 2000 (matched challenge)
    ∷ []

perform_writes-SignsInOnce_example :
    SignsInOnce 1 (perform_writes crypto settings secrets some_writes empty_accounts)
perform_writes-SignsInOnce_example =
    perform_writes-SignsInOnce crypto settings secrets 1 some_writes empty_accounts
      (record { once = omega arith })

abbrev some_requests : List OtpRequest
some_requests =
    ask_code runtime prefixed metadata send fresh 1000
    ∷ try_code metadata wrong_code fresh 2000
    ∷ ask_again send 1 (codes "t") 90000
    ∷ try_code metadata right_code fresh 91000
    ∷ []

serve_otps-WithinAttempts_example :
    WithinAttempts 1 5 (serve_otps crypto settings secrets some_requests empty_accounts)
serve_otps-WithinAttempts_example =
    serve_otps-WithinAttempts crypto settings secrets 1 5 some_requests empty_accounts (omega arith)
      (record { counted = tt; unknown = λ _. refl; bounded = omega arith })

verify_together-OneMore_example :
    All
      (OneMore challenge)
      (verify_together crypto settings secrets metadata fresh 2000
        (wrong_code ∷ wrong_code ∷ wrong_code ∷ [])
        requested).challenges
    × (failures 1 (
          verify_together crypto settings secrets metadata fresh 2000
            (wrong_code ∷ wrong_code ∷ wrong_code ∷ [])
            requested)
        ≡ failures 1 requested + 3)
unfolding new_challenge
verify_together-OneMore_example =
    verify_together-OneMore crypto settings secrets metadata fresh 2000 challenge wrong_code
      (wrong_code ∷ wrong_code ∷ []) requested (wrong_test, (wrong_test, (wrong_test, tt)))

abbrev no_accounts : Accounts
no_accounts = record empty_accounts { users = [] }

request_otp-uniform_example :
    (request_otp crypto settings secrets runtime national metadata send fresh 1000 empty_accounts).0
    ≡ (request_otp crypto settings secrets runtime national metadata no_delivery fresh 1000
        no_accounts).0
unfolding parse_development_auth_mobile starts_with
request_otp-uniform_example =
    request_otp-uniform crypto settings secrets runtime runtime national metadata metadata send
      no_delivery fresh 1000 empty_accounts no_accounts refl (λ t. refl) refl

abbrev unkeyed : Crypto
unkeyed = record { hmac = λ s t. to_hex t; encrypt = λ t. none; decrypt = λ t. none }

unkeyed_reveals_accounts_example :
    ((request_otp unkeyed settings secrets runtime national metadata send fresh 1000
        empty_accounts).0
      ≡ service_error)
    × ((request_otp unkeyed settings secrets runtime national metadata send fresh 1000
          no_accounts).0
        ≡ challenge_issued 1 601000 61000)
unfolding parse_development_auth_mobile starts_with require_otp_secret is_candidate text_eq
unkeyed_reveals_accounts_example =
    unkeyed_reveals_accounts unkeyed settings secrets runtime national metadata send fresh 1000
      empty_accounts no_accounts (codes "98") long_secret user delivery (λ t. refl) refl refl refl
      refl refl refl refl refl refl

verify_otp-Admits_example :
    (c : OtpChallenge) × Admits crypto (some long_secret) right_code 2000 requested c
    × SignsIn requested c user
verify_otp-Admits_example =
    verify_otp-Admits crypto settings secrets metadata right_code fresh 2000 requested user 40
      (codes "r") verify_test

abbrev rotated_columns : CodeColumns
rotated_columns = record {
  otp_hash = challenge.otp_hash;
  otp_salt = codes "s";
  otp_ciphertext = some (codes "1234");
  provider_reference = none;
  expires_at = 601000;
  resend_available_at = 150000;
}

resend_test :
    begin_resend crypto settings (some long_secret) send 1 (codes "t") 90000 requested
    ≡ write_code challenge true rotated_columns
unfolding begin_resend resend_found resend_of resend_columns should_reuse_otp_code is_open
    request_otp request_otp_with request_unless request_for new_challenge issue_challenge
    issue_sealed require_otp_secret parse_development_auth_mobile starts_with hash_sensitive_value
    is_candidate mask_mobile text_eq hash_otp
resend_test = refl

begin_resend-Resends_example :
    (is_open 1 90000 challenge ≡ true)
    × (challenge.resend_available_at ≤ 90000)
    × Resends settings 90000 challenge true rotated_columns
begin_resend-Resends_example =
    begin_resend-Resends crypto settings (some long_secret) send 1 (codes "t") 90000 requested
      challenge true rotated_columns resend_test
