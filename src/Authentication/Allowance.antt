-- ===== src/Authentication/Allowance.antt =====
-- How often a challenge may still sign a user in, and what each write takes of it.
use qubit_hosting_panel.Common.{
  ℕ, ◌+◌, ◌≤◌, ◌≡◌, refl, sym, subst, Bool, true, false, ◌&&◌, Option, none, some, List, [], ◌∷◌,
  ◌++◌, arith, ◌==◌, ==_iff, any, any_imp, is_id, is_some, Bool-cases, inl, inr, if◌then◌else◌,
}
use qubit_hosting_panel.Common.Table.{
  update_where, count_where, count-append, any-append, any-count, count_none, count-update_where,
  any-update_where, count-cleared,
}
use qubit_hosting_panel.Sessions.{RequestMetadata}
use qubit_hosting_panel.Authentication.Model.{
  OtpChallenge, User, EventType, AuthenticationEvent, Accounts, OtpSettings, Crypto,
}
use qubit_hosting_panel.Authentication.Codes.{Secrets, Fresh, log, answer_session}
use qubit_hosting_panel.Authentication.Verification.{
  consumable, consume, consume_challenge, sign_in,
}
use qubit_hosting_panel.Authentication.Writes.{
  SameCodes, create_session-SameCodes, authenticate_user-SameCodes,
}

abbrev is_login_event : EventType → Bool
is_login_event EventType.login_succeeded = true
is_login_event _ = false

-- The event that a challenge has signed a user in.
abbrev pub is_login : ℕ → AuthenticationEvent → Bool
is_login id e = is_id e.challenge_id id && is_login_event e.type

abbrev pub logins : ℕ → Accounts → ℕ
logins id acc = count_where (is_login id) acc.events

-- The number of times that a challenge may still be consumed: once where it is not yet made.
abbrev pub allowance : ℕ → List OtpChallenge → ℕ
allowance id rows = if any (λ c. c.id == id) rows then count_where (consumable id) rows else 1

pub record SignsInOnce (id : ℕ) (acc : Accounts) : Type 0 where
  pub once : logins id acc + allowance id acc.challenges ≤ 1

module _ (id : ℕ) where
  pub same-SignsInOnce : (a b : Accounts) → SameCodes a b → SignsInOnce id a → SignsInOnce id b
  same-SignsInOnce a b s h = record { once = rw (s.challenges, s.events) (h.once) }

  -- An event that is no login of the challenge.
  logins-log :
      (e : AuthenticationEvent) (acc : Accounts)
      → is_login id e ≡ false
      → logins id (log e acc) ≡ logins id acc
  logins-log e acc h = ground (arith, count-append (is_login id) acc.events (e ∷ []))

  pub log-SignsInOnce :
      (e : AuthenticationEvent) (acc : Accounts)
      → is_login id e ≡ false
      → SignsInOnce id acc
      → SignsInOnce id (log e acc)
  log-SignsInOnce e acc h s = record { once = omega (arith, s.once, logins-log e acc h) }

  pub allowance-update_where :
      (q : OtpChallenge → Bool) (f : OtpChallenge → OtpChallenge) (rows : List OtpChallenge)
      → ((c : OtpChallenge) → (f c).id ≡ c.id)
      → ((c : OtpChallenge) → is_some c.consumed_at ≡ true → is_some (f c).consumed_at ≡ true)
      → allowance id (update_where q f rows) ≤ allowance id rows
  allowance-update_where q f rows same kept =
      let known = any-update_where (λ c. c.id == id) q f rows (λ c e. rw (same c) refl) in
      let fewer =
        count-update_where (consumable id) q f rows (λ c e g. ground (arith, same c, kept c)) in
      rw known (ground (arith, fewer))

  pub allowance-append :
      (c : OtpChallenge) (rows : List OtpChallenge)
      → any (λ d. d.id == c.id) rows ≡ false
      → c.consumed_at ≡ none
      → allowance id (rows ++ c ∷ []) ≤ allowance id rows
  allowance-append c rows h e = elim (Bool-cases (c.id == id)) [
    | inl g ↦
        let i : c.id ≡ id = (==_iff c.id id).0 g in
        let none_yet : any (λ d. d.id == id) rows ≡ false =
          subst (λ n. any (λ d. d.id == n) rows ≡ false) i h in
        let zero_rows =
          count_none (consumable id) (λ d. d.id == id) rows (λ d t. ground arith) none_yet in
        ground (
          arith,
          none_yet,
          zero_rows,
          g,
          count-append (consumable id) rows (c ∷ []),
          any-append (λ d. d.id == id) rows (c ∷ []),
        )
    | inr g ↦ ground (
      arith,
      g,
      count-append (consumable id) rows (c ∷ []),
      any-append (λ d. d.id == id) rows (c ∷ []),
    )
  ]

  -- Consuming takes the allowance.
  allowance-consume :
      (now : ℕ) (rows : List OtpChallenge)
      → any (consumable id) rows ≡ true
      → allowance id (update_where (consumable id) (consume now) rows) + 1 ≤ allowance id rows
  allowance-consume now rows h =
      let known =
        any-update_where (λ c. c.id == id) (consumable id) (consume now) rows (λ c e. refl) in
      let cleared =
        count-cleared (consumable id) (consumable id) (consume now) rows (λ c e. ground arith)
          (λ c e. e) in
      let some_row = any_imp (consumable id) (λ c. c.id == id) rows (λ c e. ground arith) h in
      ground (arith, known, cleared, some_row, any-count (consumable id) rows h)

  logins-log_any :
      (e : AuthenticationEvent) (acc : Accounts)
      → logins id (log e acc) ≡ logins id acc + (if is_login id e then 1 else 0)
  logins-log_any e acc = ground (arith, count-append (is_login id) acc.events (e ∷ []))

module _ (k : Crypto) (env : OtpSettings) (secrets : Secrets) (id : ℕ) where
  pub answer_session-once :
      (u : User) (fresh : Fresh) (e : AuthenticationEvent) (before : Accounts) (o : Option Accounts)
      → logins id before + (if is_login id e then 1 else 0) + allowance id before.challenges ≤ 1
      → ((acc : Accounts) → o ≡ some acc → SameCodes before acc)
      → SignsInOnce id (answer_session k env u fresh e before o).1
  unfolding answer_session
  answer_session-once u fresh e before none h s = record { once = omega (arith, h) }
  answer_session-once u fresh e before (some acc) h s =
      let same = s acc refl in
      let counted : logins id acc ≡ logins id before = rw (same.events) refl in
      record { once = rw (same.challenges) (omega (arith, logins-log_any id e acc, counted, h)) }

  -- The transaction takes the allowance of its own challenge, and no other.
  pub record Consumed (c : OtpChallenge) (acc acc' : Accounts) : Type 0 where
    pub events : acc'.events ≡ acc.events
    pub allowed :
        allowance id acc'.challenges + (if c.id == id then 1 else 0) ≤ allowance id acc.challenges

  allowance-consume-any :
      (c : OtpChallenge) (now : ℕ) (rows : List OtpChallenge)
      → any (consumable c.id) rows ≡ true
      → allowance id (update_where (consumable c.id) (consume now) rows)
          + (if c.id == id then 1 else 0)
        ≤ allowance id rows
  allowance-consume-any c now rows h = elim (Bool-cases (c.id == id)) [
    | inl g ↦
        let i : c.id ≡ id = (==_iff c.id id).0 g in
        rw g (
          subst
            (λ n.
              allowance id (update_where (consumable n) (consume now) rows) + 1 ≤ allowance id rows)
            (sym i)
            (allowance-consume id now rows (subst (λ n. any (consumable n) rows ≡ true) i h)))
    | inr g ↦ rw g (
        omega (
          arith,
          allowance-update_where id (consumable c.id) (consume now) rows (λ d. refl) (λ d t. refl),
        ))
  ]

  pub consume_challenge-Consumed :
      (fresh : Fresh) (now : ℕ) (c : OtpChallenge) (acc acc' : Accounts) (u : User)
      → consume_challenge k env secrets fresh now c acc ≡ some (u, acc')
      → Consumed c acc acc'
  unfolding consume_challenge
  consume_challenge-Consumed fresh now c acc acc' u h =
      elim (Bool-cases (any (consumable c.id) acc.challenges)) [
        | inl e ↦
            let same = authenticate_user-SameCodes k env secrets fresh now _ acc' _ u (rw e at h) in
            record {
              events = same.events;
              allowed = rw (same.challenges) (allowance-consume-any c now acc.challenges e);
            }
        | inr e ↦ cc (rw e at h)
      ]

  pub sign_in-SignsInOnce :
      (md : RequestMetadata) (fresh : Fresh) (now : ℕ) (c : OtpChallenge) (acc : Accounts)
      (o : Option (User × Accounts))
      → SignsInOnce id acc
      → ((u : User) (acc' : Accounts) → o ≡ some (u, acc') → Consumed c acc acc')
      → SignsInOnce id (sign_in k env secrets md fresh now c acc o).1
  unfolding sign_in
  sign_in-SignsInOnce md fresh now c acc none h g = h
  sign_in-SignsInOnce md fresh now c acc (some (u, acc')) h g =
      let taken = g u acc' refl in
      let counted : logins id acc' ≡ logins id acc = rw (taken.events) refl in
      answer_session-once u fresh _ acc' _ (ground (arith, taken.allowed, counted, h.once))
        (λ b e. create_session-SameCodes k env secrets md now fresh u.id u.token_version acc' b e)
