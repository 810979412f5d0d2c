-- ===== src/Authentication/Attempts.antt =====
-- Requests one after the other: how many wrong codes a challenge compares.
use qubit_hosting_panel.Common.{
  ℕ, ◌+◌, ◌≤◌, ◌≡◌, refl, subst, Bool, true, false, ◌&&◌, List, [], ◌∷◌, ◌++◌, arith, ◌==◌, ==_iff,
  any, All, All-append, is_id, if◌then◌else◌,
}
use qubit_hosting_panel.Common.Text.{Text}
use qubit_hosting_panel.Common.Table.{
  update_where, count_where, count-append, any-update_where, All-update_rows, any-append,
}
use qubit_hosting_panel.Sessions.{RequestMetadata}
use qubit_hosting_panel.Authentication.Model.{
  OtpChallenge, EventType, AuthenticationEvent, Accounts, OtpSettings, Crypto,
}
use qubit_hosting_panel.Authentication.Codes.{
  Answer, RequestOtpInput, Secrets, Fresh, DevelopmentRuntime, log,
}
use qubit_hosting_panel.Authentication.Requests.{Sender, request_otp}
use qubit_hosting_panel.Authentication.Resends.{resend_otp}
use qubit_hosting_panel.Authentication.Verification.{VerifyOtpInput, verify_otp}
use qubit_hosting_panel.Authentication.Writes.{SameCodes}

pub data OtpRequest : Type 0 where
  ask_code :
      DevelopmentRuntime → RequestOtpInput → RequestMetadata → Sender → Fresh → ℕ → OtpRequest
  ask_again : Sender → ℕ → Text → ℕ → OtpRequest
  try_code : RequestMetadata → VerifyOtpInput → Fresh → ℕ → OtpRequest

module _ (k : Crypto) (env : OtpSettings) (secrets : Secrets) where
  unfoldable pub serve_otp : OtpRequest → Accounts → Answer × Accounts
  serve_otp (ask_code runtime input md send fresh now) acc =
      request_otp k env secrets runtime input md send fresh now acc
  serve_otp (ask_again send id salt now) acc =
      resend_otp k env secrets.otp_hash_secret send id salt now acc
  serve_otp (try_code md input fresh now) acc = verify_otp k env secrets md input fresh now acc

  unfoldable pub serve_otps : List OtpRequest → Accounts → Accounts
  serve_otps [] acc = acc
  serve_otps (r ∷ rs) acc = serve_otps rs (serve_otp r acc).1

abbrev is_failure_event : EventType → Bool
is_failure_event EventType.otp_verification_failed = true
is_failure_event _ = false

-- The event that a wrong code was compared with a challenge.
abbrev pub is_failure : ℕ → AuthenticationEvent → Bool
is_failure id e = is_id e.challenge_id id && is_failure_event e.type

abbrev pub failures : ℕ → Accounts → ℕ
failures id acc = count_where (is_failure id) acc.events

-- A row of the challenge has counted `n` wrong codes, and allows at most `m`.
abbrev pub CountsUpTo : ℕ → ℕ → ℕ → OtpChallenge → Type 0
CountsUpTo id n m c = (c.id == id) ≡ true → (n ≤ c.attempt_count) × (c.max_attempts ≤ m)

pub record WithinAttempts (id m : ℕ) (acc : Accounts) : Type 0 where
  pub counted : All (CountsUpTo id (failures id acc) m) acc.challenges
  pub unknown : any (λ c. c.id == id) acc.challenges ≡ false → failures id acc ≡ 0
  pub bounded : failures id acc ≤ m

module _ (id m : ℕ) where
  counts_same :
      (n n' : ℕ) (rows : List OtpChallenge)
      → n ≡ n'
      → All (CountsUpTo id n m) rows
      → All (CountsUpTo id n' m) rows
  counts_same n n' rows e h = subst (λ i. All (CountsUpTo id i m) rows) e h

  pub same-WithinAttempts :
      (a b : Accounts) → SameCodes a b → WithinAttempts id m a → WithinAttempts id m b
  same-WithinAttempts a b s h = record {
    counted = rw (s.challenges, s.events) (h.counted);
    unknown = rw (s.challenges, s.events) (h.unknown);
    bounded = rw (s.events) (h.bounded);
  }

  pub failures-log :
      (e : AuthenticationEvent) (acc : Accounts)
      → failures id (log e acc) ≡ failures id acc + (if is_failure id e then 1 else 0)
  failures-log e acc = ground (arith, count-append (is_failure id) acc.events (e ∷ []))

  pub log-WithinAttempts :
      (e : AuthenticationEvent) (acc : Accounts)
      → is_failure id e ≡ false
      → WithinAttempts id m acc
      → WithinAttempts id m (log e acc)
  log-WithinAttempts e acc n h =
      let counted : failures id acc ≡ failures id (log e acc) =
        ground (arith, n, failures-log e acc) in
      record {
        counted = counts_same _ _ acc.challenges counted h.counted;
        unknown = λ u. omega (arith, counted, h.unknown u);
        bounded = omega (arith, counted, h.bounded);
      }

  -- An update that keeps the ids, the attempts and their maximum.
  pub update-WithinAttempts :
      (acc : Accounts) (p : OtpChallenge → Bool) (f : OtpChallenge → OtpChallenge)
      → ((c : OtpChallenge) → (f c).id ≡ c.id)
      → ((c : OtpChallenge) → (f c).attempt_count ≡ c.attempt_count)
      → ((c : OtpChallenge) → (f c).max_attempts ≡ c.max_attempts)
      → WithinAttempts id m acc
      → WithinAttempts id m (record acc { challenges = update_where p f acc.challenges })
  update-WithinAttempts acc p f i a x h = record {
    counted =
        All-update_rows (CountsUpTo id (failures id acc) m) (CountsUpTo id (failures id acc) m) p f
          acc.challenges (λ c e r. rw (i c, a c, x c) r) (λ c e r. r) h.counted;
    unknown = λ u. h.unknown (
        subst (λ b. b ≡ false)
          (any-update_where (λ c. c.id == id) p f acc.challenges (λ c e. rw (i c) refl)) u);
    bounded = h.bounded;
  }

  pub append-WithinAttempts :
      (c : OtpChallenge) (acc : Accounts)
      → any (λ d. d.id == c.id) acc.challenges ≡ false
      → c.attempt_count ≡ 0
      → c.max_attempts ≤ m
      → WithinAttempts id m acc
      → WithinAttempts id m (record acc { challenges = acc.challenges ++ c ∷ [] })
  append-WithinAttempts c acc n a x h = record {
    counted =
        All-append (CountsUpTo id (failures id acc) m) acc.challenges (c ∷ []) h.counted
          (λ e. (none_counted e, x), tt);
    unknown =
        λ u. h.unknown (ground (arith, u, any-append (λ d. d.id == id) acc.challenges (c ∷ [])));
    bounded = h.bounded;
  }
    where
      none_counted : (c.id == id) ≡ true → failures id acc ≤ c.attempt_count
      none_counted e =
          let i : c.id ≡ id = (==_iff c.id id).0 e in
          let absent : any (λ d. d.id == id) acc.challenges ≡ false =
            subst (λ j. any (λ d. d.id == j) acc.challenges ≡ false) i n in
          omega (arith, h.unknown absent)
