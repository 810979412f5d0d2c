-- ===== src/Authentication/Once.antt =====
-- The logins by one challenge, through writes in any order.
use qubit_hosting_panel.Common.{
  ℕ, ◌+◌, ◌≡◌, refl, Bool, true, false, List, [], ◌∷◌, arith, ◌==◌, Bool-cases, inl, inr,
}
use qubit_hosting_panel.Common.Table.{update_where}
use qubit_hosting_panel.Sessions.{RequestMetadata}
use qubit_hosting_panel.Authentication.Model.{
  OtpChallenge, AuthenticationEvent, Accounts, OtpSettings, Crypto,
}
use qubit_hosting_panel.Authentication.Codes.{Secrets, Fresh}
use qubit_hosting_panel.Authentication.Resends.{set_code}
use qubit_hosting_panel.Authentication.Verification.{
  Verification, verification_refused, verification_failed, mismatched, matched, record_failure,
  may_sign_in, finish_verification,
}
use qubit_hosting_panel.Authentication.Writes.{
  Write, write_request, write_resend, write_verification, perform_write, perform_writes,
}
use qubit_hosting_panel.Authentication.Kept.{
  is_neutral, Keeps, request_otp-keeps, finish_resend-keeps,
}
use qubit_hosting_panel.Authentication.Allowance.{
  SignsInOnce, same-SignsInOnce, log-SignsInOnce, allowance-update_where, is_login,
  allowance-append, sign_in-SignsInOnce, consume_challenge-Consumed,
}

module _ (k : Crypto) (env : OtpSettings) (secrets : Secrets) (id : ℕ) where
  update-SignsInOnce :
      (acc : Accounts) (p : OtpChallenge → Bool) (f : OtpChallenge → OtpChallenge)
      → ((c : OtpChallenge) → (f c).id ≡ c.id)
      → ((c : OtpChallenge) → (f c).consumed_at ≡ c.consumed_at)
      → SignsInOnce id acc
      → SignsInOnce id (record acc { challenges = update_where p f acc.challenges })
  update-SignsInOnce acc p f i c h = record {
    once =
        omega (arith, h.once, allowance-update_where id p f acc.challenges i (λ d e. rw (c d) e));
  }

  neutral-login : (e : AuthenticationEvent) → is_neutral e ≡ true → is_login id e ≡ false
  neutral-login e n = ground arith

  SignsInOnce-Keeps : Keeps env.otp_max_attempts (SignsInOnce id)
  SignsInOnce-Keeps = record {
    same = λ a b s h. same-SignsInOnce id a b s h;
    logged = λ e acc n h. log-SignsInOnce id e acc (neutral-login e n) h;
    issued = λ c acc n e f g h. record {
      once = omega (arith, h.once, allowance-append id c acc.challenges n e);
    };
    recoded = λ c v acc h.
        update-SignsInOnce acc (λ d. d.id == c.id) (set_code v) (λ d. refl) (λ d. refl) h;
  }

  finish_verification-SignsInOnce :
      (md : RequestMetadata) (fresh : Fresh) (now : ℕ) (v : Verification) (acc : Accounts)
      → SignsInOnce id acc
      → SignsInOnce id (finish_verification k env secrets md fresh now v acc).1
  unfolding finish_verification record_failure
  finish_verification-SignsInOnce md fresh now verification_refused acc h = h
  finish_verification-SignsInOnce md fresh now verification_failed acc h = h
  finish_verification-SignsInOnce md fresh now (mismatched c) acc h =
      log-SignsInOnce id _ _ (ground arith) (
        update-SignsInOnce acc (λ d. d.id == c.id)
          (λ d. record d { attempt_count = c.attempt_count + 1 }) (λ d. refl) (λ d. refl) h)
  finish_verification-SignsInOnce md fresh now (matched c) acc h =
      elim (Bool-cases (may_sign_in c.user_id acc.users)) [
        | inl e ↦ rw e (
            sign_in-SignsInOnce k env secrets id md fresh now c acc _ h
              (λ u acc' g. consume_challenge-Consumed k env secrets id fresh now c acc acc' u g))
        | inr e ↦ rw e h
      ]

  perform_write-SignsInOnce :
      (w : Write) (acc : Accounts)
      → SignsInOnce id acc
      → SignsInOnce id (perform_write k env secrets w acc)
  unfolding perform_write
  perform_write-SignsInOnce (write_request runtime input md send fresh now) acc h =
      request_otp-keeps k env secrets (SignsInOnce id) SignsInOnce-Keeps runtime input md send fresh
        now acc h
  perform_write-SignsInOnce (write_resend plan) acc h =
      finish_resend-keeps k env secrets (SignsInOnce id) SignsInOnce-Keeps plan acc h
  perform_write-SignsInOnce (write_verification md fresh now v) acc h =
      finish_verification-SignsInOnce md fresh now v acc h

-- However the reads and writes of requests, resends and verifications interleave, a challenge signs
-- in at most once: together with the uses that are left, the logins by it stay at most one.
pub perform_writes-SignsInOnce :
    (k : Crypto) (env : OtpSettings) (secrets : Secrets) (id : ℕ) (ws : List Write) (acc : Accounts)
    → SignsInOnce id acc
    → SignsInOnce id (perform_writes k env secrets ws acc)
unfolding perform_writes
perform_writes-SignsInOnce k env secrets id [] acc h = h
perform_writes-SignsInOnce k env secrets id (w ∷ ws) acc h =
    perform_writes-SignsInOnce k env secrets id ws _
      (perform_write-SignsInOnce k env secrets id w acc h)
