-- ===== src/Authentication/Uniform.antt =====
-- What a request for a code tells about the accounts.
use qubit_hosting_panel.Common.{
  ℕ, ◌≡◌, refl, Bool, true, false, Option, none, some, ap, subst, ◌==◌, any, is_some, Option-cases,
  Bool-cases, inl, inr,
}
use qubit_hosting_panel.Common.Text.{Text}
use qubit_hosting_panel.Common.Table.{find}
use qubit_hosting_panel.Sessions.{RequestMetadata}
use qubit_hosting_panel.Authentication.Model.{
  OtpChallenge, User, Accounts, OtpSettings, Crypto, hash_sensitive_value,
}
use qubit_hosting_panel.Authentication.Codes.{
  RequestOtpInput, Secrets, Fresh, Delivery, DevelopmentRuntime, parse_development_auth_mobile,
}
use qubit_hosting_panel.Authentication.Requests.{
  Sender, new_challenge, issue_challenge, issue_sealed, ciphertext_of, request_for, request_unless,
  request_otp_with, request_otp, in_cooldown, identity_of,
}

module _ (k : Crypto) (env : OtpSettings) (secrets : Secrets) where
  issue_sealed-uniform :
      (secret mobile : Text) (country : Option Text) (fresh : Fresh) (now : ℕ) (u u' : Option User)
      (d d' : Option Delivery) (o o' : Option (Option Text)) (acc acc' : Accounts)
      → is_some o ≡ true
      → is_some o' ≡ true
      → acc.challenges ≡ acc'.challenges
      → (issue_sealed k env secrets secret country mobile fresh now u d o acc).0
        ≡ (issue_sealed k env secrets secret country mobile fresh now u' d' o' acc').0
  unfolding issue_sealed issue_challenge new_challenge
  issue_sealed-uniform secret mobile country fresh now u u' d d' none o' acc acc' q q' e = cc
  issue_sealed-uniform secret mobile country fresh now u u' d d' (some t) none acc acc' q q' e = cc
  issue_sealed-uniform secret mobile country fresh now u u' d d' (some t) (some t') acc acc' q q'
        e =
      elim (Bool-cases (any (λ d. d.id == fresh.challenge_id) acc'.challenges)) [
        | inl x ↦ rw (e, x) refl
        | inr x ↦ rw (e, x) refl
      ]

  sealed :
      (d : Option Delivery)
      → ((t : Text) → is_some (k.encrypt t) ≡ true)
      → is_some (ciphertext_of k env secrets d) ≡ true
  sealed none c = refl
  sealed (some d) c = elim (Option-cases (k.encrypt d.code)) [
    | inl n ↦ let h : is_some (k.encrypt d.code) ≡ true = c d.code in cc (rw n at h)
    | inr (t, n) ↦ rw (n, is_some) refl
  ]

  request_unless-uniform :
      (secret mobile : Text) (country : Option Text) (send send' : Sender) (fresh : Fresh) (now : ℕ)
      (o : Option OtpChallenge) (acc acc' : Accounts)
      → ((t : Text) → is_some (k.encrypt t) ≡ true)
      → acc.challenges ≡ acc'.challenges
      → (request_unless k env secrets secret country mobile send fresh now o acc).0
        ≡ (request_unless k env secrets secret country mobile send' fresh now o acc').0
  unfolding request_unless request_for
  request_unless-uniform secret mobile country send send' fresh now none acc acc' c e =
      issue_sealed-uniform secret mobile country fresh now _ _ _ _ _ _ acc acc' (sealed _ c)
        (sealed _ c) e
  request_unless-uniform secret mobile country send send' fresh now (some d) acc acc' c e = refl

  request_otp_with-uniform :
      (runtime runtime' : DevelopmentRuntime) (parsed : Bool × Text) (country : Option Text)
      (md md' : RequestMetadata) (send send' : Sender) (fresh : Fresh) (now : ℕ) (o : Option Text)
      (acc acc' : Accounts)
      → parsed.0 ≡ false
      → ((t : Text) → is_some (k.encrypt t) ≡ true)
      → acc.challenges ≡ acc'.challenges
      → (request_otp_with k env secrets runtime parsed country md send fresh now o acc).0
        ≡ (request_otp_with k env secrets runtime' parsed country md' send' fresh now o acc').0
  unfolding request_otp_with
  request_otp_with-uniform runtime runtime' parsed country md md' send send' fresh now none acc acc'
        b c e =
      refl
  request_otp_with-uniform runtime runtime' (true, mobile) country md md' send send' fresh now
        (some s) acc acc' b c e =
      cc
  request_otp_with-uniform runtime runtime' (false, mobile) country md md' send send' fresh now
        (some s) acc acc' b c e =
      let p = in_cooldown (hash_sensitive_value k (identity_of country mobile) s) now in
      subst
        (λ o.
          (request_unless k env secrets s country mobile send fresh now (find p acc.challenges)
            acc).0
          ≡ (request_unless k env secrets s country mobile send' fresh now o acc').0)
        (ap (find p) e)
        (request_unless-uniform s mobile country send send' fresh now (find p acc.challenges) acc
          acc' c e)

-- Where the server has the key that encrypts the codes, the answer to a request for a code outside the
-- development bypass depends on the challenges only: whether the number has an account, and whether a
-- code was delivered to it, changes nothing of the answer.
pub request_otp-uniform :
    (k : Crypto) (env : OtpSettings) (secrets : Secrets) (runtime runtime' : DevelopmentRuntime)
    (input : RequestOtpInput) (md md' : RequestMetadata) (send send' : Sender) (fresh : Fresh)
    (now : ℕ) (acc acc' : Accounts)
    → (parse_development_auth_mobile input.mobile).0 ≡ false
    → ((t : Text) → is_some (k.encrypt t) ≡ true)
    → acc.challenges ≡ acc'.challenges
    → (request_otp k env secrets runtime input md send fresh now acc).0
      ≡ (request_otp k env secrets runtime' input md' send' fresh now acc').0
unfolding request_otp
request_otp-uniform k env secrets runtime runtime' input md md' send send' fresh now acc acc' b c
      e =
    request_otp_with-uniform k env secrets runtime runtime' _ _ md md' send send' fresh now _ acc
      acc' b c e
