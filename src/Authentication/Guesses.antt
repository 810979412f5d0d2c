-- ===== src/Authentication/Guesses.antt =====
-- What a wrong code does to the attempts of a challenge that was read just before.
use qubit_hosting_panel.Common.{
  ℕ, ◌+◌, ◌≤◌, ◌≡◌, refl, subst, true, false, Option, none, some, [], ◌∷◌, arith, ◌==◌, leb, any,
  Bool-cases, inl, inr,
}
use qubit_hosting_panel.Common.Text.{Text}
use qubit_hosting_panel.Common.Table.{find, count-append, any-update_where, All-update_rows}
use qubit_hosting_panel.Authentication.Model.{
  OtpChallenge, EventType, EventStatus, AuthenticationEvent, Accounts, Crypto,
}
use qubit_hosting_panel.Authentication.Codes.{Secrets, event}
use qubit_hosting_panel.Authentication.Requests.{is_open}
use qubit_hosting_panel.Authentication.Resends.{set_code}
use qubit_hosting_panel.Authentication.Verification.{
  VerifyOtpInput, mismatched, compare_otp, verify_found, begin_verification, record_failure,
}
use qubit_hosting_panel.Authentication.Kept.{is_neutral, Keeps}
use qubit_hosting_panel.Authentication.Attempts.{
  is_failure, failures, CountsUpTo, WithinAttempts, same-WithinAttempts, log-WithinAttempts,
  update-WithinAttempts, append-WithinAttempts,
}

module _ (id m : ℕ) where
  neutral-failure : (e : AuthenticationEvent) → is_neutral e ≡ true → is_failure id e ≡ false
  neutral-failure e n = ground arith

  pub WithinAttempts-Keeps :
      (max_attempts : ℕ) → max_attempts ≤ m → Keeps max_attempts (WithinAttempts id m)
  WithinAttempts-Keeps max_attempts le = record {
    same = λ a b s h. same-WithinAttempts id m a b s h;
    logged = λ e acc n h. log-WithinAttempts id m e acc (neutral-failure e n) h;
    issued = λ c acc n e f g h. append-WithinAttempts id m c acc n f (omega (arith, le, g)) h;
    recoded = λ c v acc h.
        update-WithinAttempts id m acc (λ d. d.id == c.id) (set_code v) (λ d. refl) (λ d. refl)
          (λ d. refl) h;
  }

  -- A wrong code for the challenge itself, or for another.
  pub record_failure-own :
      (c : OtpChallenge) (acc : Accounts)
      → (c.id == id) ≡ true
      → leb c.max_attempts c.attempt_count ≡ false
      → CountsUpTo id (failures id acc) m c
      → any (λ d. d.id == id) acc.challenges ≡ true
      → WithinAttempts id m acc
      → WithinAttempts id m (record_failure c acc)
  unfolding record_failure
  record_failure-own c acc e l r x h = record {
    counted =
        All-update_rows (CountsUpTo id (failures id acc) m)
          (CountsUpTo id (failures id (record_failure c acc)) m) (λ d. d.id == c.id)
          (λ d. record d { attempt_count = c.attempt_count + 1 }) acc.challenges
          (λ d t q g. (omega (arith, counted, (r e).0), (q g).1))
          (λ d t q g. absurd (ground (arith, t, g, e))) h.counted;
    unknown = λ u. absurd (known u);
    bounded = ground (arith, counted, (r e).0, (r e).1, l);
  }
    where
      counted : failures id (record_failure c acc) ≡ failures id acc + 1
      counted = ground (
        arith,
        e,
        count-append (is_failure id) acc.events (
            event c.user_id (some c.id) EventType.otp_verification_failed EventStatus.failure none
            ∷ []),
      )

      known : any (λ d. d.id == id) (record_failure c acc).challenges ≡ false → ⊥
      known u = ground (
        arith,
        x,
        u,
        any-update_where (λ d. d.id == id) (λ d. d.id == c.id)
            (λ d. record d { attempt_count = c.attempt_count + 1 }) acc.challenges (λ d g. refl),
      )

  pub record_failure-other :
      (c : OtpChallenge) (acc : Accounts)
      → (c.id == id) ≡ false
      → WithinAttempts id m acc
      → WithinAttempts id m (record_failure c acc)
  unfolding record_failure
  record_failure-other c acc e h = log-WithinAttempts id m _ _ (ground (arith, e)) (record {
    counted =
        All-update_rows (CountsUpTo id (failures id acc) m) (CountsUpTo id (failures id acc) m)
          (λ d. d.id == c.id) (λ d. record d { attempt_count = c.attempt_count + 1 }) acc.challenges
          (λ d t q g. absurd (ground (arith, t, g, e))) (λ d t q. q) h.counted;
    unknown = λ u. h.unknown (
        subst (λ b. b ≡ false)
          (any-update_where (λ d. d.id == id) (λ d. d.id == c.id)
            (λ d. record d { attempt_count = c.attempt_count + 1 }) acc.challenges (λ d g. refl))
          u);
    bounded = h.bounded;
  })

-- What a verification that found a wrong code has read.
pub record Read (id now : ℕ) (acc : Accounts) (c : OtpChallenge) : Type 0 where
  pub found : find (is_open id now) acc.challenges ≡ some c
  pub left : leb c.max_attempts c.attempt_count ≡ false

module _ (k : Crypto) where
  compared-found :
      (otp : Text) (c d : OtpChallenge) (o : Option Text)
      → compare_otp k otp c o ≡ mismatched d
      → c ≡ d
  unfolding compare_otp
  compared-found otp c d none h = cc
  compared-found otp c d (some s) h = ground arith

  pub begin_verification-Read :
      (secrets : Secrets) (input : VerifyOtpInput) (now : ℕ) (acc : Accounts) (c : OtpChallenge)
      → begin_verification k secrets input now acc ≡ mismatched c
      → Read input.challenge_id now acc c
  unfolding begin_verification verify_found
  begin_verification-Read secrets input now acc c h =
      read (find (is_open input.challenge_id now) acc.challenges) refl h
    where
      read :
          (o : Option OtpChallenge)
          → find (is_open input.challenge_id now) acc.challenges ≡ o
          → verify_found k secrets.otp_hash_secret input.otp o ≡ mismatched c
          → Read input.challenge_id now acc c
      read none e g = cc
      read (some d) e g = elim (Bool-cases (leb d.max_attempts d.attempt_count)) [
        | inl b ↦ cc (rw b at g)
        | inr b ↦
            let same = compared-found input.otp d c _ (rw b at g) in
            record {
              found =
                  subst (λ x. find (is_open input.challenge_id now) acc.challenges ≡ some x) same e;
              left = subst (λ x. leb x.max_attempts x.attempt_count ≡ false) same b;
            }
      ]
