-- ===== src/Authentication/Parallel.antt =====
-- Verifications that all read a challenge before any of them writes its attempts.
use qubit_hosting_panel.Common.{
  ℕ, ◌+◌, ◌≡◌, refl, true, none, some, List, [], ◌∷◌, arith, ◌==◌, ==_refl, All, length, map,
}
use qubit_hosting_panel.Common.Table.{count-append, All-updated}
use qubit_hosting_panel.Sessions.{RequestMetadata}
use qubit_hosting_panel.Authentication.Model.{
  OtpChallenge, EventType, EventStatus, Accounts, OtpSettings, Crypto,
}
use qubit_hosting_panel.Authentication.Codes.{Secrets, Fresh, event}
use qubit_hosting_panel.Authentication.Verification.{
  VerifyOtpInput, Verification, mismatched, begin_verification, record_failure, finish_verification,
}
use qubit_hosting_panel.Authentication.Attempts.{is_failure, failures}

module _ (k : Crypto) (env : OtpSettings) (secrets : Secrets) (md : RequestMetadata) (fresh : Fresh)
    (now : ℕ) where
  unfoldable pub finish_verifications : List Verification → Accounts → Accounts
  finish_verifications [] acc = acc
  finish_verifications (v ∷ vs) acc =
      finish_verifications vs (finish_verification k env secrets md fresh now v acc).1

  -- All read the tables as they are, then all write.
  unfoldable pub verify_together : List VerifyOtpInput → Accounts → Accounts
  verify_together inputs acc =
      finish_verifications (map (λ i. begin_verification k secrets i now acc) inputs) acc

-- Every row of the challenge has one attempt more than the row that was read.
abbrev pub OneMore : OtpChallenge → OtpChallenge → Type 0
OneMore c d = (d.id == c.id) ≡ true → d.attempt_count ≡ c.attempt_count + 1

module _ (k : Crypto) (env : OtpSettings) (secrets : Secrets) (md : RequestMetadata) (fresh : Fresh)
    (now : ℕ) (c : OtpChallenge) where
  finish-failures :
      (v : Verification) (acc : Accounts)
      → v ≡ mismatched c
      → failures c.id (finish_verification k env secrets md fresh now v acc).1
        ≡ failures c.id acc + 1
  unfolding finish_verification record_failure
  finish-failures v acc e = rw e (
      ground (
        arith,
        ==_refl c.id,
        count-append (is_failure c.id) acc.events (
            event c.user_id (some c.id) EventType.otp_verification_failed EventStatus.failure none
            ∷ []),
      ))

  finish-OneMore :
      (v : Verification) (acc : Accounts)
      → v ≡ mismatched c
      → All (OneMore c) (finish_verification k env secrets md fresh now v acc).1.challenges
  unfolding finish_verification record_failure
  finish-OneMore v acc e = rw e (
      All-updated (λ d. d.attempt_count ≡ c.attempt_count + 1) (λ d. d.id == c.id)
        (λ d. d.id == c.id) (λ d. record d { attempt_count = c.attempt_count + 1 }) acc.challenges
        (λ d t. refl) (λ d t. t))

  finish_verifications-OneMore :
      (vs : List Verification) (acc : Accounts)
      → All (λ v. v ≡ mismatched c) vs
      → All (OneMore c) acc.challenges
      → All (OneMore c) (finish_verifications k env secrets md fresh now vs acc).challenges
        × (failures c.id (finish_verifications k env secrets md fresh now vs acc)
            ≡ failures c.id acc + length vs)
  unfolding finish_verifications
  finish_verifications-OneMore [] acc e h = (h, omega arith)
  finish_verifications-OneMore (v ∷ vs) acc e h =
      let (rows, counted) =
        finish_verifications-OneMore vs (finish_verification k env secrets md fresh now v acc).1 e.1
          (finish-OneMore v acc e.0) in
      (rows, omega (arith, counted, finish-failures v acc e.0))

  map-mismatched :
      (inputs : List VerifyOtpInput) (acc : Accounts)
      → All (λ i. begin_verification k secrets i now acc ≡ mismatched c) inputs
      → All (λ v. v ≡ mismatched c) (map (λ i. begin_verification k secrets i now acc) inputs)
        × (length (map (λ i. begin_verification k secrets i now acc) inputs) ≡ length inputs)
  map-mismatched [] acc h = (tt, refl)
  map-mismatched (i ∷ is) acc h =
      let (same, n) = map-mismatched is acc h.1 in ((h.0, same), omega (arith, n))

-- Wrong codes that are compared before any of their attempts is written count as one attempt
-- together, however many they are, although each is logged: the limit does not bound them.
pub verify_together-OneMore :
    (k : Crypto) (env : OtpSettings) (secrets : Secrets) (md : RequestMetadata) (fresh : Fresh)
    (now : ℕ) (c : OtpChallenge) (input : VerifyOtpInput) (inputs : List VerifyOtpInput)
    (acc : Accounts)
    → All (λ i. begin_verification k secrets i now acc ≡ mismatched c) (input ∷ inputs)
    → All (OneMore c) (verify_together k env secrets md fresh now (input ∷ inputs) acc).challenges
      × (failures c.id (verify_together k env secrets md fresh now (input ∷ inputs) acc)
          ≡ failures c.id acc + length (input ∷ inputs))
unfolding verify_together finish_verifications
verify_together-OneMore k env secrets md fresh now c input inputs acc h =
    let (same, n) = map-mismatched k env secrets md fresh now c inputs acc h.1 in
    let v = begin_verification k secrets input now acc in
    let (rows, counted) =
      finish_verifications-OneMore k env secrets md fresh now c _
        (finish_verification k env secrets md fresh now v acc).1 same
        (finish-OneMore k env secrets md fresh now c v acc h.0) in
    (rows, omega (arith, counted, n, finish-failures k env secrets md fresh now c v acc h.0))
