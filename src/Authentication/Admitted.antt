-- ===== src/Authentication/Admitted.antt =====
-- Who is signed in by a code.
use qubit_hosting_panel.Common.{
  ℕ, ◌≡◌, refl, subst, true, false, Option, none, some, List, arith, leb, any, Bool-cases,
  Option-cases, inl, inr,
}
use qubit_hosting_panel.Common.Text.{Text}
use qubit_hosting_panel.Common.Table.{find, find_sound, any-find}
use qubit_hosting_panel.Sessions.{RequestMetadata}
use qubit_hosting_panel.Authentication.Model.{
  OtpChallenge, User, AuthenticationEvent, Accounts, OtpSettings, Crypto, is_active,
  require_otp_secret, verify_otp_hash,
}
use qubit_hosting_panel.Authentication.Codes.{signed_in, Secrets, Fresh, answer_session}
use qubit_hosting_panel.Authentication.Requests.{is_open}
use qubit_hosting_panel.Authentication.Verification.{
  VerifyOtpInput, Verification, verification_refused, verification_failed, mismatched, matched,
  compare_otp, verify_found, begin_verification, consumable, consume_challenge, registered,
  find_linked, is_active_user, provisioned, authenticate_user, may_sign_in, sign_in,
  finish_verification, verify_otp,
}

-- The challenge that admits a code.
pub record Admits (k : Crypto) (secret : Option Text) (input : VerifyOtpInput) (now : ℕ)
    (acc : Accounts) (c : OtpChallenge) : Type 0 where
  pub found : find (is_open input.challenge_id now) acc.challenges ≡ some c
  pub left : leb c.max_attempts c.attempt_count ≡ false
  pub hashed :
      (s : Text) × (require_otp_secret secret ≡ some s)
      × (verify_otp_hash k input.otp c.otp_salt c.otp_hash s ≡ true)

module _ (k : Crypto) (secrets : Secrets) (input : VerifyOtpInput) (now : ℕ) where
  compared-matched :
      (c d : OtpChallenge) (o : Option Text)
      → compare_otp k input.otp c o ≡ matched d
      → (c ≡ d)
        × ((s : Text) × (o ≡ some s) × (verify_otp_hash k input.otp c.otp_salt c.otp_hash s ≡ true))
  unfolding compare_otp
  compared-matched c d none h = cc
  compared-matched c d (some s) h =
      elim (Bool-cases (verify_otp_hash k input.otp c.otp_salt c.otp_hash s)) [
        | inl e ↦ (ground (arith, e), (s, refl, e))
        | inr e ↦ cc (rw e at h)
      ]

  found-Admits :
      (acc : Accounts) (c : OtpChallenge) (o : Option OtpChallenge)
      → find (is_open input.challenge_id now) acc.challenges ≡ o
      → verify_found k secrets.otp_hash_secret input.otp o ≡ matched c
      → Admits k secrets.otp_hash_secret input now acc c
  unfolding verify_found
  found-Admits acc c none e h = cc
  found-Admits acc c (some d) e h = elim (Bool-cases (leb d.max_attempts d.attempt_count)) [
    | inl b ↦ cc (rw b at h)
    | inr b ↦
        let (same, hashed) = compared-matched d c _ (rw b at h) in
        let admits : Admits k secrets.otp_hash_secret input now acc d = record {
          found = e;
          left = b;
          hashed = hashed;
        } in
        subst (Admits k secrets.otp_hash_secret input now acc) same admits
  ]

module _ (k : Crypto) (env : OtpSettings) (secrets : Secrets) where
  provisioned-user :
      (u u' : User) (acc : Accounts) (o : Option Accounts)
      → provisioned k env secrets u o ≡ some (u', acc)
      → u ≡ u'
  provisioned-user u u' acc none h = cc
  provisioned-user u u' acc (some b) h = ground arith

  -- The user of a transaction that succeeds is the one that was found, and active.
  authenticated-active :
      (fresh : Fresh) (now : ℕ) (acc acc' : Accounts) (o : Option (User × List User)) (u : User)
      → authenticate_user k env secrets fresh now acc o ≡ some (u, acc')
      → (is_active u.status ≡ true) × ((users : List User) × (o ≡ some (u, users)))
  unfolding authenticate_user
  authenticated-active fresh now acc acc' none u h = cc
  authenticated-active fresh now acc acc' (some (v, users)) u h =
      elim (Bool-cases (is_active v.status)) [
        | inl e ↦
            let same = provisioned-user v u acc' _ (rw e at h) in
            subst
              (λ x.
                (is_active x.status ≡ true)
                × ((us : List User) × (◌≡◌ {A = Option (User × List User)} (some (v, users))
                      (some (x, us)))))
              same (e, (users, refl))
        | inr e ↦ cc (rw e at h)
      ]

  answered-user :
      (u v : User) (fresh : Fresh) (e : AuthenticationEvent) (acc : Accounts) (o : Option Accounts)
      (sid : ℕ) (token : Text)
      → (answer_session k env u fresh e acc o).0 ≡ signed_in v sid token
      → u ≡ v
  unfolding answer_session
  answered-user u v fresh e acc none sid token h = cc
  answered-user u v fresh e acc (some b) sid token h = ground arith

  -- Which user the registration gives, where the challenge has one that may sign in.
  linked-user :
      (c : OtpChallenge) (fresh now : ℕ) (users users' : List User) (o : Option ℕ) (u : User)
      → may_sign_in o users ≡ true
      → registered c fresh now (find_linked o users) users ≡ some (u, users')
      → (i : ℕ) → o ≡ some i
      → u.id ≡ i
  unfolding registered
  linked-user c fresh now users users' none u m h i e = cc
  linked-user c fresh now users users' (some j) u m h i e =
      elim (Option-cases (find (is_active_user j) users)) [
        | inl x ↦ ground (arith, x, m, any-find (is_active_user j) users)
        | inr (v, x) ↦ ground (arith, rw x at h, find_sound (is_active_user j) users x)
      ]

  signed-user :
      (md : RequestMetadata) (fresh : Fresh) (now : ℕ) (c : OtpChallenge) (acc : Accounts)
      (u : User) (sid : ℕ) (token : Text) (o : Option (User × Accounts))
      → (sign_in k env secrets md fresh now c acc o).0 ≡ signed_in u sid token
      → (b : Accounts) × (o ≡ some (u, b))
  unfolding sign_in
  signed-user md fresh now c acc u sid token none h = cc
  signed-user md fresh now c acc u sid token (some (v, b)) h =
      let same = answered-user v u fresh _ b _ sid token h in
      subst
        (λ x. (b' : Accounts) × (◌≡◌ {A = Option (User × Accounts)} (some (v, b)) (some (x, b'))))
        same (b, refl)

  consumed-user :
      (fresh : Fresh) (now : ℕ) (c : OtpChallenge) (acc b : Accounts) (u : User)
      → consume_challenge k env secrets fresh now c acc ≡ some (u, b)
      → (any (consumable c.id) acc.challenges ≡ true)
        × (is_active u.status ≡ true)
        × ((users : List User) × (registered c fresh.user_id now
                (find_linked c.user_id acc.users)
                acc.users
              ≡ some (u, users)))
  unfolding consume_challenge
  consumed-user fresh now c acc b u h = elim (Bool-cases (any (consumable c.id) acc.challenges)) [
    | inl e ↦
        let (active, made) = authenticated-active fresh now _ b _ u (rw e at h) in (e, active, made)
    | inr e ↦ cc (rw e at h)
  ]

-- The user that a challenge signs in.
pub record SignsIn (acc : Accounts) (c : OtpChallenge) (u : User) : Type 0 where
  pub unconsumed : any (consumable c.id) acc.challenges ≡ true
  pub active : is_active u.status ≡ true
  pub linked : (i : ℕ) → c.user_id ≡ some i → u.id ≡ i

module _ (k : Crypto) (env : OtpSettings) (secrets : Secrets) (md : RequestMetadata) (fresh : Fresh)
    (now : ℕ) (acc : Accounts) (u : User) (sid : ℕ) (token : Text) where
  finished-SignsIn :
      (v : Verification)
      → (finish_verification k env secrets md fresh now v acc).0 ≡ signed_in u sid token
      → (c : OtpChallenge) × (v ≡ matched c) × SignsIn acc c u
  unfolding finish_verification
  finished-SignsIn verification_refused h = cc
  finished-SignsIn verification_failed h = cc
  finished-SignsIn (mismatched c) h = cc
  finished-SignsIn (matched c) h = elim (Bool-cases (may_sign_in c.user_id acc.users)) [
    | inl m ↦
        let (b, e) = signed-user k env secrets md fresh now c acc u sid token _ (rw m at h) in
        let (unconsumed, active, (users, made)) =
          consumed-user k env secrets fresh now c acc b u e in
        let signs : SignsIn acc c u = record {
          unconsumed = unconsumed;
          active = active;
          linked = λ i g.
              linked-user k env secrets c fresh.user_id now acc.users users c.user_id u m made i g;
        } in
        (c, refl, signs)
    | inr m ↦ cc (rw m at h)
  ]

-- Where a code signs a user in, the challenge of the request was open: submitted, unexpired, neither
-- consumed nor deleted; it had attempts left, and the code has its hash. The user is active, and the
-- challenge's own where it has one.
pub verify_otp-Admits :
    (k : Crypto) (env : OtpSettings) (secrets : Secrets) (md : RequestMetadata)
    (input : VerifyOtpInput) (fresh : Fresh) (now : ℕ) (acc : Accounts) (u : User) (sid : ℕ)
    (token : Text)
    → (verify_otp k env secrets md input fresh now acc).0 ≡ signed_in u sid token
    → (c : OtpChallenge) × Admits k secrets.otp_hash_secret input now acc c × SignsIn acc c u
unfolding verify_otp begin_verification
verify_otp-Admits k env secrets md input fresh now acc u sid token h =
    let v = begin_verification k secrets input now acc in
    let (c, e, signs) = finished-SignsIn k env secrets md fresh now acc u sid token v h in
    (c, found-Admits k secrets input now acc c _ refl e, signs)
