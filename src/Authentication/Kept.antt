-- ===== src/Authentication/Kept.antt =====
-- Invariants of the challenges and the events through requestOtp and resendOtp, by the few changes
-- that these are made of.
use qubit_hosting_panel.Common.{
  ℕ, ◌≡◌, refl, Bool, true, false, not, ◌||◌, is_some, Option, none, some, [], ◌∷◌, ◌++◌, ◌==◌, any,
  Bool-cases, inl, inr,
}
use qubit_hosting_panel.Common.Text.{Text}
use qubit_hosting_panel.Common.Table.{update_where}
use qubit_hosting_panel.Sessions.{RequestMetadata}
use qubit_hosting_panel.Authentication.Model.{
  OtpChallenge, User, EventType, AuthenticationEvent, Accounts, OtpSettings, Crypto,
}
use qubit_hosting_panel.Authentication.Codes.{
  RequestOtpInput, Secrets, Fresh, Delivery, DevelopmentRuntime, can_use_development_auth_bypass,
  event, log, answer_session,
}
use qubit_hosting_panel.Authentication.Requests.{
  Sender, new_challenge, issue_challenge, issue_sealed, request_for, request_unless, bypass_with,
  bypass_as, bypass, request_otp_with, request_otp, delivery_event, delivery_result,
}
use qubit_hosting_panel.Authentication.Resends.{
  ResendPlan, resend_refused, resend_failed, write_code, set_code, CodeColumns, finish_resend,
}
use qubit_hosting_panel.Authentication.Writes.{
  SameCodes, create_session-SameCodes, ensure_customer-SameCodes,
}

-- Events that are about no challenge, or that a challenge was sent.
abbrev pub is_sending : EventType → Bool
is_sending EventType.otp_requested = true
is_sending EventType.otp_delivery_failed = true
is_sending _ = false

abbrev pub is_neutral : AuthenticationEvent → Bool
is_neutral e = not (is_some e.challenge_id) || is_sending e.type

-- A property that the changes of requests and resends keep.
pub record Keeps (max_attempts : ℕ) (I : Accounts → Type 0) : Type 1 where
  pub same : (a b : Accounts) → SameCodes a b → I a → I b
  pub logged :
      (e : AuthenticationEvent) (acc : Accounts) → is_neutral e ≡ true → I acc → I (log e acc)
  pub issued :
      (c : OtpChallenge) (acc : Accounts)
      → any (λ d. d.id == c.id) acc.challenges ≡ false
      → c.consumed_at ≡ none
      → c.attempt_count ≡ 0
      → c.max_attempts ≡ max_attempts
      → I acc
      → I (record acc { challenges = acc.challenges ++ c ∷ [] })
  pub recoded :
      (c : OtpChallenge) (v : CodeColumns) (acc : Accounts)
      → I acc
      → I (record acc { challenges = update_where (λ d. d.id == c.id) (set_code v) acc.challenges })

module _ (k : Crypto) (env : OtpSettings) (secrets : Secrets) (I : Accounts → Type 0)
    (keeps : Keeps env.otp_max_attempts I) where
  issue_challenge-keeps :
      (c : OtpChallenge) (d : Option Delivery) (acc : Accounts)
      → c.consumed_at ≡ none
      → c.attempt_count ≡ 0
      → c.max_attempts ≡ env.otp_max_attempts
      → I acc
      → I (issue_challenge k env secrets c d acc).1
  unfolding issue_challenge
  issue_challenge-keeps c d acc e f g h =
      elim (Bool-cases (any (λ d. d.id == c.id) acc.challenges)) [
        | inl x ↦ rw x h
        | inr x ↦ rw x (keeps.logged _ _ (sending d) (keeps.issued c acc x e f g h))
      ]
    where
      sending :
          (d : Option Delivery)
          → is_neutral (event c.user_id (some c.id) (delivery_event d) (delivery_result d) none)
            ≡ true
      sending none = refl
      sending (some d) = refl

  issue_sealed-keeps :
      (secret : Text) (country : Option Text) (mobile : Text) (fresh : Fresh) (now : ℕ)
      (u : Option User) (d : Option Delivery) (o : Option (Option Text)) (acc : Accounts)
      → I acc
      → I (issue_sealed k env secrets secret country mobile fresh now u d o acc).1
  unfolding issue_sealed new_challenge
  issue_sealed-keeps secret country mobile fresh now u d none acc h = h
  issue_sealed-keeps secret country mobile fresh now u d (some c) acc h =
      issue_challenge-keeps _ _ acc refl refl refl h

  bypass_session-keeps :
      (fresh : Fresh) (u : User) (e : AuthenticationEvent) (acc : Accounts) (o : Option Accounts)
      → is_neutral e ≡ true
      → I acc
      → ((b : Accounts) → o ≡ some b → SameCodes acc b)
      → I (answer_session k env u fresh e acc o).1
  unfolding answer_session
  bypass_session-keeps fresh u e acc none n h g = h
  bypass_session-keeps fresh u e acc (some b) n h g =
      keeps.logged e b n (keeps.same acc b (g b refl) h)

  bypass_with-keeps :
      (md : RequestMetadata) (fresh : Fresh) (now : ℕ) (u : User) (acc : Accounts)
      (o : Option Accounts)
      → I acc
      → ((b : Accounts) → o ≡ some b → I b)
      → I (bypass_with k env secrets md fresh now u acc o).1
  unfolding bypass_with
  bypass_with-keeps md fresh now u acc none h g = h
  bypass_with-keeps md fresh now u acc (some b) h g =
      bypass_session-keeps fresh u _ b _ refl (g b refl)
        (λ b' e. create_session-SameCodes k env secrets md now fresh u.id u.token_version b b' e)

  bypass_as-keeps :
      (md : RequestMetadata) (fresh : Fresh) (now : ℕ) (o : Option User) (acc : Accounts)
      → I acc
      → I (bypass_as k env secrets md fresh now o acc).1
  unfolding bypass_as
  bypass_as-keeps md fresh now none acc h = h
  bypass_as-keeps md fresh now (some u) acc h = bypass_with-keeps md fresh now u acc _ h (λ b e.
      keeps.same acc b (ensure_customer-SameCodes k env secrets fresh.customer_id u.id acc b e) h)

  request_unless-keeps :
      (secret : Text) (country : Option Text) (mobile : Text) (send : Sender) (fresh : Fresh)
      (now : ℕ) (o : Option OtpChallenge) (acc : Accounts)
      → I acc
      → I (request_unless k env secrets secret country mobile send fresh now o acc).1
  unfolding request_unless request_for
  request_unless-keeps secret country mobile send fresh now (some c) acc h = h
  request_unless-keeps secret country mobile send fresh now none acc h =
      issue_sealed-keeps secret country mobile fresh now _ _ _ acc h

  request_otp_with-keeps :
      (runtime : DevelopmentRuntime) (parsed : Bool × Text) (country : Option Text)
      (md : RequestMetadata) (send : Sender) (fresh : Fresh) (now : ℕ) (o : Option Text)
      (acc : Accounts)
      → I acc
      → I (request_otp_with k env secrets runtime parsed country md send fresh now o acc).1
  unfolding request_otp_with bypass
  request_otp_with-keeps runtime parsed country md send fresh now none acc h = h
  request_otp_with-keeps runtime (true, mobile) country md send fresh now (some s) acc h =
      elim (Bool-cases (can_use_development_auth_bypass runtime)) [
        | inl e ↦ rw e (bypass_as-keeps md fresh now _ acc h)
        | inr e ↦ rw e h
      ]
  request_otp_with-keeps runtime (false, mobile) country md send fresh now (some s) acc h =
      request_unless-keeps s country mobile send fresh now _ acc h

  pub request_otp-keeps :
      (runtime : DevelopmentRuntime) (input : RequestOtpInput) (md : RequestMetadata)
      (send : Sender) (fresh : Fresh) (now : ℕ) (acc : Accounts)
      → I acc
      → I (request_otp k env secrets runtime input md send fresh now acc).1
  unfolding request_otp
  request_otp-keeps runtime input md send fresh now acc h =
      request_otp_with-keeps runtime _ _ md send fresh now _ acc h

  pub finish_resend-keeps :
      (plan : ResendPlan) (acc : Accounts) → I acc → I (finish_resend plan acc).1
  unfolding finish_resend
  finish_resend-keeps resend_refused acc h = h
  finish_resend-keeps resend_failed acc h = h
  finish_resend-keeps (write_code c reuse v) acc h =
      elim (Bool-cases (any (λ d. d.id == c.id) acc.challenges)) [
        | inl e ↦ rw e (keeps.logged _ _ refl (keeps.recoded c v acc h))
        | inr e ↦ rw e h
      ]
