-- ===== src/Authentication/Bounded.antt =====
-- The wrong codes that a challenge compares, through requests one after the other.
use qubit_hosting_panel.Common.{
  ℕ, ◌≤◌, ◌≡◌, refl, false, Option, none, some, List, [], ◌∷◌, arith, ◌==◌, any, any_imp,
  Bool-cases, inl, inr,
}
use qubit_hosting_panel.Common.Table.{find_sound, find-any, All-find}
use qubit_hosting_panel.Sessions.{RequestMetadata}
use qubit_hosting_panel.Authentication.Model.{
  OtpChallenge, User, AuthenticationEvent, Accounts, OtpSettings, Crypto,
}
use qubit_hosting_panel.Authentication.Codes.{Secrets, Fresh, answer_session}
use qubit_hosting_panel.Authentication.Requests.{is_open}
use qubit_hosting_panel.Authentication.Resends.{resend_otp}
use qubit_hosting_panel.Authentication.Verification.{
  Verification, verification_refused, verification_failed, mismatched, matched, record_failure,
  consumable, consume, consume_challenge, may_sign_in, sign_in, finish_verification, verify_otp,
}
use qubit_hosting_panel.Authentication.Writes.{
  SameCodes, create_session-SameCodes, authenticate_user-SameCodes,
}
use qubit_hosting_panel.Authentication.Kept.{request_otp-keeps, finish_resend-keeps}
use qubit_hosting_panel.Authentication.Attempts.{
  OtpRequest, ask_code, ask_again, try_code, serve_otp, serve_otps, is_failure, failures,
  CountsUpTo, WithinAttempts, same-WithinAttempts, log-WithinAttempts, update-WithinAttempts,
}
use qubit_hosting_panel.Authentication.Guesses.{
  WithinAttempts-Keeps, record_failure-own, record_failure-other, Read, begin_verification-Read,
}

module _ (k : Crypto) (env : OtpSettings) (secrets : Secrets) (id m : ℕ) where
  record_failure-WithinAttempts :
      (n now : ℕ) (c : OtpChallenge) (acc : Accounts)
      → Read n now acc c
      → WithinAttempts id m acc
      → WithinAttempts id m (record_failure c acc)
  unfolding is_open
  record_failure-WithinAttempts n now c acc r h = elim (Bool-cases (c.id == id)) [
    | inl e ↦
        record_failure-own id m c acc e r.left
          (All-find (CountsUpTo id (failures id acc) m) (is_open n now) acc.challenges h.counted
            r.found)
          (any_imp (is_open n now) (λ d. d.id == id) acc.challenges
            (λ d t. ground (arith, t, e, find_sound (is_open n now) acc.challenges r.found))
            (find-any (is_open n now) acc.challenges r.found))
          h
    | inr e ↦ record_failure-other id m c acc e h
  ]

  consume_challenge-WithinAttempts :
      (fresh : Fresh) (now : ℕ) (c : OtpChallenge) (acc acc' : Accounts) (u : User)
      → consume_challenge k env secrets fresh now c acc ≡ some (u, acc')
      → WithinAttempts id m acc
      → WithinAttempts id m acc'
  unfolding consume_challenge
  consume_challenge-WithinAttempts fresh now c acc acc' u e h =
      elim (Bool-cases (any (consumable c.id) acc.challenges)) [
        | inl b ↦
            same-WithinAttempts id m _ acc'
              (authenticate_user-SameCodes k env secrets fresh now _ acc' _ u (rw b at e))
              (update-WithinAttempts id m acc (consumable c.id) (consume now) (λ d. refl)
                (λ d. refl) (λ d. refl) h)
        | inr b ↦ cc (rw b at e)
      ]

  answer_session-WithinAttempts :
      (u : User) (fresh : Fresh) (e : AuthenticationEvent) (acc : Accounts) (o : Option Accounts)
      → is_failure id e ≡ false
      → WithinAttempts id m acc
      → ((b : Accounts) → o ≡ some b → SameCodes acc b)
      → WithinAttempts id m (answer_session k env u fresh e acc o).1
  unfolding answer_session
  answer_session-WithinAttempts u fresh e acc none n h g = h
  answer_session-WithinAttempts u fresh e acc (some b) n h g =
      log-WithinAttempts id m e b n (same-WithinAttempts id m acc b (g b refl) h)

  sign_in-WithinAttempts :
      (md : RequestMetadata) (fresh : Fresh) (now : ℕ) (c : OtpChallenge) (acc : Accounts)
      (o : Option (User × Accounts))
      → WithinAttempts id m acc
      → ((u : User) (b : Accounts) → o ≡ some (u, b) → WithinAttempts id m b)
      → WithinAttempts id m (sign_in k env secrets md fresh now c acc o).1
  unfolding sign_in
  sign_in-WithinAttempts md fresh now c acc none h g = h
  sign_in-WithinAttempts md fresh now c acc (some (u, b)) h g =
      answer_session-WithinAttempts u fresh _ b _ (ground arith) (g u b refl)
        (λ b' e. create_session-SameCodes k env secrets md now fresh u.id u.token_version b b' e)

  finish_verification-WithinAttempts :
      (n : ℕ) (md : RequestMetadata) (fresh : Fresh) (now : ℕ) (v : Verification) (acc : Accounts)
      → ((c : OtpChallenge) → v ≡ mismatched c → Read n now acc c)
      → WithinAttempts id m acc
      → WithinAttempts id m (finish_verification k env secrets md fresh now v acc).1
  unfolding finish_verification
  finish_verification-WithinAttempts n md fresh now verification_refused acc r h = h
  finish_verification-WithinAttempts n md fresh now verification_failed acc r h = h
  finish_verification-WithinAttempts n md fresh now (mismatched c) acc r h =
      record_failure-WithinAttempts n now c acc (r c refl) h
  finish_verification-WithinAttempts n md fresh now (matched c) acc r h =
      elim (Bool-cases (may_sign_in c.user_id acc.users)) [
        | inl e ↦ rw e (
            sign_in-WithinAttempts md fresh now c acc _ h
              (λ u b g. consume_challenge-WithinAttempts fresh now c acc b u g h))
        | inr e ↦ rw e h
      ]

  serve_otp-WithinAttempts :
      (r : OtpRequest) (acc : Accounts)
      → env.otp_max_attempts ≤ m
      → WithinAttempts id m acc
      → WithinAttempts id m (serve_otp k env secrets r acc).1
  unfolding serve_otp verify_otp resend_otp
  serve_otp-WithinAttempts (ask_code runtime input md send fresh now) acc le h =
      request_otp-keeps k env secrets (WithinAttempts id m)
        (WithinAttempts-Keeps id m env.otp_max_attempts le) runtime input md send fresh now acc h
  serve_otp-WithinAttempts (ask_again send n salt now) acc le h =
      finish_resend-keeps k env secrets (WithinAttempts id m)
        (WithinAttempts-Keeps id m env.otp_max_attempts le) _ acc h
  serve_otp-WithinAttempts (try_code md input fresh now) acc le h =
      finish_verification-WithinAttempts input.challenge_id md fresh now _ acc
        (λ c e. begin_verification-Read k secrets input now acc c e) h

-- As long as the requests come one after the other, a challenge compares at most as many wrong codes
-- as the environment allows, whichever codes are tried, and however often it is sent again.
pub serve_otps-WithinAttempts :
    (k : Crypto) (env : OtpSettings) (secrets : Secrets) (id m : ℕ) (rs : List OtpRequest)
    (acc : Accounts)
    → env.otp_max_attempts ≤ m
    → WithinAttempts id m acc
    → WithinAttempts id m (serve_otps k env secrets rs acc)
unfolding serve_otps
serve_otps-WithinAttempts k env secrets id m [] acc le h = h
serve_otps-WithinAttempts k env secrets id m (r ∷ rs) acc le h =
    serve_otps-WithinAttempts k env secrets id m rs _ le
      (serve_otp-WithinAttempts k env secrets id m r acc le h)
