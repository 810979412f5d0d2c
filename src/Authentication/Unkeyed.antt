-- ===== src/Authentication/Unkeyed.antt =====
-- What a request for a code answers where the server has no key for the codes.
use qubit_hosting_panel.Common.{
  ℕ, ◌+◌, ◌*◌, ◌≡◌, refl, ap, ◌∙◌, Bool, false, none, some, ◌++◌, ◌==◌, any,
}
use qubit_hosting_panel.Common.Text.{Text}
use qubit_hosting_panel.Common.Table.{find}
use qubit_hosting_panel.Sessions.{RequestMetadata}
use qubit_hosting_panel.Authentication.Model.{
  User, Accounts, OtpSettings, Crypto, require_otp_secret, hash_sensitive_value,
}
use qubit_hosting_panel.Authentication.Codes.{
  challenge_issued, service_error, RequestOtpInput, Secrets, Fresh, Delivery, DevelopmentRuntime,
  parse_development_auth_mobile, calling_code, unique_where, is_candidate,
}
use qubit_hosting_panel.Authentication.Requests.{
  Sender, new_challenge, issue_challenge, issue_sealed, stored_cipher, ciphertext_of, request_for,
  request_unless, request_otp_with, request_otp, in_cooldown,
}

module _ (k : Crypto) (env : OtpSettings) (secrets : Secrets) (secret mobile : Text) (send : Sender)
    (fresh : Fresh) (now : ℕ) where
  unsealed : (d : Delivery) → k.encrypt d.code ≡ none → ciphertext_of k env secrets (some d) ≡ none
  unsealed d n = ap stored_cipher n

  delivered-fails :
      (u : User) (d : Delivery) (acc : Accounts)
      → k.encrypt d.code ≡ none
      → send (u.country_code ++ u.mobile) none ≡ some d
      → (request_for k env secrets secret none mobile send fresh now (some u) acc).0 ≡ service_error
  unfolding request_for issue_sealed
  delivered-fails u d acc n s =
      ap
        (λ o.
          (issue_sealed k env secrets secret none mobile fresh now (some u) o
            (ciphertext_of k env secrets o) acc).0)
        s
      ∙ ap
          (λ o. (issue_sealed k env secrets secret none mobile fresh now (some u) (some d) o acc).0)
          (unsealed d n)

  undelivered-issues :
      (acc : Accounts)
      → any (λ d. d.id == fresh.challenge_id) acc.challenges ≡ false
      → (request_for k env secrets secret none mobile send fresh now none acc).0
        ≡ challenge_issued fresh.challenge_id
            (now + env.otp_ttl_minutes * 60000)
            (now + env.otp_resend_cooldown_seconds * 1000)
  unfolding request_for issue_sealed issue_challenge new_challenge
  undelivered-issues acc f = rw f refl

-- Where the server has its secret but no key for the codes, a request by a national number, outside the
-- development bypass and the cooldown of the number and with a fresh id, tells whether the number has
-- an account that a code reaches: it fails for an account to which a code was delivered, and is
-- answered with a challenge where no account has the number.
pub unkeyed_reveals_accounts :
    (k : Crypto) (env : OtpSettings) (secrets : Secrets) (runtime : DevelopmentRuntime)
    (input : RequestOtpInput) (md : RequestMetadata) (send : Sender) (fresh : Fresh) (now : ℕ)
    (acc acc' : Accounts) (mobile secret : Text) (u : User) (d : Delivery)
    → ((t : Text) → k.encrypt t ≡ none)
    → require_otp_secret secrets.otp_hash_secret ≡ some secret
    → ◌≡◌ {A = Bool × Text} (parse_development_auth_mobile input.mobile) (false, mobile)
    → calling_code input.country_code ≡ none
    → acc.challenges ≡ acc'.challenges
    → find (in_cooldown (hash_sensitive_value k mobile secret) now) acc'.challenges ≡ none
    → any (λ c. c.id == fresh.challenge_id) acc'.challenges ≡ false
    → unique_where (is_candidate none mobile) acc.users ≡ some u
    → send (u.country_code ++ u.mobile) none ≡ some d
    → unique_where (is_candidate none mobile) acc'.users ≡ none
    → ((request_otp k env secrets runtime input md send fresh now acc).0 ≡ service_error)
      × ((request_otp k env secrets runtime input md send fresh now acc').0
          ≡ challenge_issued fresh.challenge_id
              (now + env.otp_ttl_minutes * 60000)
              (now + env.otp_resend_cooldown_seconds * 1000))
unfolding request_otp request_otp_with request_unless
unkeyed_reveals_accounts k env secrets runtime input md send fresh now acc acc' mobile secret u d n
      s p c e free new known sent unknown =
    let waits = in_cooldown (hash_sensitive_value k mobile secret) now in
    let free' : find waits acc.challenges ≡ none = ap (find waits) e ∙ free in
    (
      rw (s, p, c, free', known)
          (delivered-fails k env secrets secret mobile send fresh now u d acc (n d.code) sent),
      rw (s, p, c, free, unknown)
          (undelivered-issues k env secrets secret mobile send fresh now acc' new),
    )
