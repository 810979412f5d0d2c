-- ===== src/Authentication/Resent.antt =====
-- What a resend writes, and what it refuses.
use qubit_hosting_panel.Common.{
  ℕ, ◌+◌, ◌*◌, ◌<◌, ◌≤◌, ◌≡◌, refl, sym, ap, subst, Bool, true, false, not, ◌||◌, ◌&&◌, Option,
  none, some, List, arith, ◌==◌, ltb, any, All, All-imp, All-append, any-All, Bool-cases, inl, inr,
}
use qubit_hosting_panel.Common.Text.{Text}
use qubit_hosting_panel.Common.Table.{find, find_sound, All-find}
use qubit_hosting_panel.Sessions.{RequestMetadata}
use qubit_hosting_panel.Authentication.Model.{
  OtpChallenge, User, Accounts, OtpSettings, Crypto, require_otp_secret,
}
use qubit_hosting_panel.Authentication.Codes.{
  cannot_resend, RequestOtpInput, Secrets, Fresh, Delivery, DevelopmentRuntime,
  should_reuse_otp_code, parse_development_auth_mobile, calling_code,
}
use qubit_hosting_panel.Authentication.Requests.{
  Sender, new_challenge, issue_challenge, issue_sealed, request_for, request_unless,
  request_otp_with, request_otp, is_open, is_present,
}
use qubit_hosting_panel.Authentication.Resends.{
  CodeColumns, resend_refused, write_code, code_columns, resent_hash, resend_columns,
  resend_delivered, send_current, resend_of, resend_found, begin_resend, finish_resend, resend_otp,
}

-- The columns that a resend writes: a code that is stored and has more than a minute left keeps its
-- hash, salt and expiry, and any other has a new expiry.
pub record Resends (env : OtpSettings) (now : ℕ) (c : OtpChallenge) (reuse : Bool) (v : CodeColumns)
    : Type 0 where
  pub cooldown : v.resend_available_at ≡ now + env.otp_resend_cooldown_seconds * 1000
  pub decided : reuse ≡ (is_present c.otp_ciphertext && ltb (now + 60000) c.expires_at)
  pub reused :
      is_present c.otp_ciphertext ≡ true
      → now + 60000 < c.expires_at
      → (v.otp_hash ≡ c.otp_hash) × (v.otp_salt ≡ c.otp_salt) × (v.expires_at ≡ c.expires_at)
  pub rotated :
      (is_present c.otp_ciphertext && ltb (now + 60000) c.expires_at) ≡ false
      → v.expires_at ≡ now + env.otp_ttl_minutes * 60000

module _ (k : Crypto) (env : OtpSettings) (secret : Option Text) where
  columns-Resends :
      (reuse r' : Bool) (c d : OtpChallenge) (salt : Text) (now : ℕ) (x : Delivery)
      (o q : Option Text) (v : CodeColumns)
      → reuse ≡ (is_present c.otp_ciphertext && ltb (now + 60000) c.expires_at)
      → (reuse ≡ true → o ≡ some c.otp_hash)
      → resend_columns k env secret reuse c salt now x o q ≡ write_code d r' v
      → (c ≡ d) × Resends env now c r' v
  unfolding resend_columns
  columns-Resends reuse r' c d salt now x none q v g h e = cc
  columns-Resends reuse r' c d salt now x (some hash) none v g h e = cc
  columns-Resends reuse r' c d salt now x (some hash) (some t) v g h e =
      let written : code_columns k env secret reuse c salt now x hash t ≡ v = ground arith in
      let same : reuse ≡ r' = ground arith in
      let kept : Resends env now c reuse (code_columns k env secret reuse c salt now x hash t) =
        record {
          cooldown = refl;
          decided = g;
          reused = λ a b.
              let on : reuse ≡ true = ground (arith, g, a, b) in
              (ground (arith, h on), rw on refl, rw on refl);
          rotated = λ b. let off : reuse ≡ false = cc (g, b) in rw off refl;
        } in
      (
        ground arith,
        subst (Resends env now c r') written (
            subst (λ b. Resends env now c b (code_columns k env secret reuse c salt now x hash t))
              same kept),
      )

  delivered-Resends :
      (reuse r' : Bool) (c d : OtpChallenge) (salt : Text) (now : ℕ) (o : Option Delivery)
      (v : CodeColumns)
      → reuse ≡ (is_present c.otp_ciphertext && ltb (now + 60000) c.expires_at)
      → resend_delivered k env secret reuse c salt now o ≡ write_code d r' v
      → (c ≡ d) × Resends env now c r' v
  delivered-Resends reuse r' c d salt now none v h e = cc
  delivered-Resends true r' c d salt now (some x) v h e =
      columns-Resends true r' c d salt now x (some c.otp_hash) (k.encrypt x.code) v h (λ b. refl) e
  delivered-Resends false r' c d salt now (some x) v h e =
      columns-Resends false r' c d salt now x (resent_hash k env secret false c salt x)
        (k.encrypt x.code) v h (λ b. cc b) e

  current-Resends :
      (send : Sender) (target : Text) (r' : Bool) (c d : OtpChallenge) (salt : Text) (now : ℕ)
      (o : Option Text) (v : CodeColumns)
      → true ≡ (is_present c.otp_ciphertext && ltb (now + 60000) c.expires_at)
      → send_current k env secret send target c salt now o ≡ write_code d r' v
      → (c ≡ d) × Resends env now c r' v
  current-Resends send target r' c d salt now none v h e = cc
  current-Resends send target r' c d salt now (some code) v h e =
      delivered-Resends true r' c d salt now _ v h e

  of-Resends :
      (send : Sender) (r' : Bool) (c d : OtpChallenge) (salt : Text) (now : ℕ) (v : CodeColumns)
      → resend_of k env secret send c salt now ≡ write_code d r' v
      → (c ≡ d) × Resends env now c r' v
  unfolding resend_of should_reuse_otp_code
  of-Resends send r' c d salt now v e =
      elim (Bool-cases (should_reuse_otp_code c.expires_at now (is_present c.otp_ciphertext))) [
        | inl b ↦ current-Resends send _ r' c d salt now _ v (sym b) (rw b at e)
        | inr b ↦ delivered-Resends false r' c d salt now _ v (sym b) (rw b at e)
      ]

  found-Resends :
      (send : Sender) (r' : Bool) (d : OtpChallenge) (salt : Text) (now : ℕ)
      (o : Option OtpChallenge) (v : CodeColumns)
      → resend_found k env secret send salt now o ≡ write_code d r' v
      → (o ≡ some d) × (d.resend_available_at ≤ now) × Resends env now d r' v
  unfolding resend_found
  found-Resends send r' d salt now none v e = cc
  found-Resends send r' d salt now (some c) v e =
      elim (Bool-cases (
        ltb now c.resend_available_at
        || not (is_present c.country_code)
        || not (is_present c.mobile))) [
          | inl b ↦ cc (rw b at e)
          | inr b ↦
              let (same, kept) = of-Resends send r' c d salt now v (rw b at e) in
              subst
                (λ x.
                  (◌≡◌ {A = Option OtpChallenge} (some c) (some x))
                  × (x.resend_available_at ≤ now)
                  × Resends env now x r' v)
                same (refl, ground (arith, b), kept)
        ]

-- A resend writes over a challenge that is open, and only after its cooldown. Where its code is stored
-- and more than a minute is left it keeps the code, so that what was sent before stays valid, and its
-- expiry; in any other case the code has a new lifetime.
pub begin_resend-Resends :
    (k : Crypto) (env : OtpSettings) (secret : Option Text) (send : Sender) (id : ℕ) (salt : Text)
    (now : ℕ) (acc : Accounts) (c : OtpChallenge) (reuse : Bool) (v : CodeColumns)
    → begin_resend k env secret send id salt now acc ≡ write_code c reuse v
    → (is_open id now c ≡ true) × (c.resend_available_at ≤ now) × Resends env now c reuse v
unfolding begin_resend
begin_resend-Resends k env secret send id salt now acc c reuse v e =
    let (found, le, kept) =
      found-Resends k env secret send reuse c salt now (find (is_open id now) acc.challenges) v e in
    (find_sound (is_open id now) acc.challenges found, le, kept)

-- No row of the challenge knows the country.
abbrev WithoutCountry : ℕ → OtpChallenge → Type 0
WithoutCountry id c = (c.id == id) ≡ true → c.country_code ≡ none

module _ (k : Crypto) (env : OtpSettings) (secrets : Secrets) (fresh : Fresh) where
  issued-WithoutCountry :
      (secret mobile : Text) (now : ℕ) (u : Option User) (d : Option Delivery)
      (o : Option (Option Text)) (acc : Accounts)
      → All (WithoutCountry fresh.challenge_id) acc.challenges
      → All
          (WithoutCountry fresh.challenge_id)
          (issue_sealed k env secrets secret none mobile fresh now u d o acc).1.challenges
  unfolding issue_sealed issue_challenge new_challenge
  issued-WithoutCountry secret mobile now u d none acc h = h
  issued-WithoutCountry secret mobile now u d (some t) acc h =
      elim (Bool-cases (any (λ c. c.id == fresh.challenge_id) acc.challenges)) [
        | inl e ↦ rw e h
        | inr e ↦
            rw e (All-append (WithoutCountry fresh.challenge_id) acc.challenges _ h (λ _. refl, tt))
      ]

  unless-WithoutCountry :
      (secret mobile : Text) (send : Sender) (now : ℕ) (o : Option OtpChallenge) (acc : Accounts)
      → All (WithoutCountry fresh.challenge_id) acc.challenges
      → All
          (WithoutCountry fresh.challenge_id)
          (request_unless k env secrets secret none mobile send fresh now o acc).1.challenges
  unfolding request_unless request_for
  unless-WithoutCountry secret mobile send now none acc h =
      issued-WithoutCountry secret mobile now _ _ _ acc h
  unless-WithoutCountry secret mobile send now (some c) acc h = h

  requested-WithoutCountry :
      (runtime : DevelopmentRuntime) (parsed : Bool × Text) (md : RequestMetadata) (send : Sender)
      (now : ℕ) (o : Option Text) (acc : Accounts)
      → parsed.0 ≡ false
      → All (WithoutCountry fresh.challenge_id) acc.challenges
      → All
          (WithoutCountry fresh.challenge_id)
          (request_otp_with k env secrets runtime parsed none md send fresh now o acc).1.challenges
  unfolding request_otp_with
  requested-WithoutCountry runtime parsed md send now none acc b h = h
  requested-WithoutCountry runtime (true, mobile) md send now (some s) acc b h = cc b
  requested-WithoutCountry runtime (false, mobile) md send now (some s) acc b h =
      unless-WithoutCountry s mobile send now _ acc h

  unresendable :
      (send : Sender) (salt : Text) (now : ℕ) (rows : List OtpChallenge) (o : Option OtpChallenge)
      → All (WithoutCountry fresh.challenge_id) rows
      → find (is_open fresh.challenge_id now) rows ≡ o
      → resend_found k env secrets.otp_hash_secret send salt now o ≡ resend_refused
  unfolding resend_found is_open
  unresendable send salt now rows none h e = refl
  unresendable send salt now rows (some c) h e =
      let met = find_sound (is_open fresh.challenge_id now) rows e in
      let unknown : c.country_code ≡ none =
        All-find (WithoutCountry fresh.challenge_id) (is_open fresh.challenge_id now) rows h e
          (ground (arith, met)) in
      elim (Bool-cases (ltb now c.resend_available_at)) [
        | inl b ↦ rw b refl
        | inr b ↦ rw (b, unknown) refl
      ]

-- A challenge that was requested by a national number alone is never sent again: resendOtp wants the
-- calling code of the request, although the code was sent by the one that the account has.
pub unprefixed_never_resent :
    (k : Crypto) (env : OtpSettings) (secrets : Secrets) (runtime : DevelopmentRuntime)
    (input : RequestOtpInput) (md : RequestMetadata) (send send' : Sender) (fresh : Fresh)
    (now later : ℕ) (salt : Text) (acc : Accounts)
    → (parse_development_auth_mobile input.mobile).0 ≡ false
    → calling_code input.country_code ≡ none
    → any (λ c. c.id == fresh.challenge_id) acc.challenges ≡ false
    → (resend_otp k env secrets.otp_hash_secret send' fresh.challenge_id salt later
        (request_otp k env secrets runtime input md send fresh now acc).1).0
      ≡ cannot_resend
unfolding resend_otp begin_resend finish_resend request_otp
unprefixed_never_resent k env secrets runtime input md send send' fresh now later salt acc b n f =
    let none_yet =
      All-imp (λ c. (c.id == fresh.challenge_id) ≡ false) (WithoutCountry fresh.challenge_id)
        (λ c x y. cc (x, y)) acc.challenges
        (any-All (λ c. c.id == fresh.challenge_id) acc.challenges f) in
    let after =
      (request_otp_with k env secrets runtime (parse_development_auth_mobile input.mobile) none md
        send fresh now (require_otp_secret secrets.otp_hash_secret) acc).1 in
    let kept =
      requested-WithoutCountry k env secrets fresh runtime
        (parse_development_auth_mobile input.mobile) md send now
        (require_otp_secret secrets.otp_hash_secret) acc b none_yet in
    rw n (
      ap (λ plan. (finish_resend plan after).0)
        (unresendable k env secrets fresh send' salt later after.challenges
          (find (is_open fresh.challenge_id later) after.challenges) kept refl))
