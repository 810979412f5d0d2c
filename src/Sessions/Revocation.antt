-- ===== src/Sessions/Revocation.antt =====
-- What becomes of a revoked session.
use qubit_hosting_panel.Common.{
  ℕ, ◌≡◌, refl, inl, inr, Bool, true, false, not, ◌&&◌, ◌||◌, Option, none, some, List, [], ◌∷◌,
  arith, ◌==◌, All, All-imp, Bool-cases, Option-cases, is_some, leb, ◌+◌,
}
use qubit_hosting_panel.Common.Text.{Text, codes}
use qubit_hosting_panel.Common.Table.{
  find, find_sound, find-none, update_where, All-update_rows, All-find,
}
use qubit_hosting_panel.Sessions.{
  Session, Claims, Caller, AuthenticatedSession, SessionRequest, show_session, update_label,
  revoke_session, revoke_others, is_current, touch, claims_of, accept_session, authenticate_claims,
  authenticate_session, owned_session, revocable, other_revocable, set_revoked, serve_session,
  handle_authenticated, handle_session,
}

-- The user's session is revoked or deleted, in every row that carries its id.
abbrev pub DeadRow : ℕ → ℕ → Session → Type 0
DeadRow user id s =
    (s.id == id && s.user_id == user) ≡ true → (is_some s.revoked_at || s.deleted) ≡ true

-- What every update of a session keeps.
pub record KeepsDead (f : Session → Session) : Type 0 where
  pub dead : (user id : ℕ) (s : Session) → DeadRow user id s → DeadRow user id (f s)

module _ (user id : ℕ) where
  pub dead-update_where :
      (p : Session → Bool) (f : Session → Session) (rows : List Session)
      → KeepsDead f
      → All (DeadRow user id) rows
      → All (DeadRow user id) (update_where p f rows)
  dead-update_where p f rows k h =
      All-update_rows (DeadRow user id) (DeadRow user id) p f rows (λ s _ d. k.dead user id s d)
        (λ s _ d. d) h

  dead-touch :
      (q : Caller) (s : Session) (rows : List Session)
      → All (DeadRow user id) rows
      → All (DeadRow user id) (touch q s rows)
  unfolding touch
  dead-touch q s rows h = elim (Bool-cases (leb (s.last_active_at + 60000) q.now)) [
    | inl e ↦ rw e (dead-update_where _ _ rows (record { dead = λ u i t d. d }) h)
    | inr e ↦ rw e h
  ]

  dead-serve_session :
      (now : ℕ) (a : AuthenticatedSession) (r : SessionRequest) (rows : List Session)
      → All (DeadRow user id) rows
      → All (DeadRow user id) (serve_session now a r rows).1
  unfolding serve_session set_revoked
  dead-serve_session now a (show_session i) rows h = h
  dead-serve_session now a (update_label i label) rows h =
      elim (Bool-cases (is_some (find (owned_session a.user_id i) rows))) [
        | inl e ↦ rw e (dead-update_where _ _ rows (record { dead = λ u j t d. d }) h)
        | inr e ↦ rw e h
      ]
  dead-serve_session now a (revoke_session i) rows h =
      elim (Bool-cases (is_some (find (revocable a.user_id i) rows))) [
        | inl e ↦ rw e (
            dead-update_where (revocable a.user_id i)
              (set_revoked now (codes "user_session_management")) rows
              (record { dead = λ u j t d _. refl }) h)
        | inr e ↦ rw e h
      ]
  dead-serve_session now a revoke_others rows h =
      dead-update_where (other_revocable a) (set_revoked now (codes "user_revoked_other_sessions"))
        rows (record { dead = λ u j t d _. refl }) h

module _ (verify : Text → Option Claims) (user id : ℕ) where
  dead-accept_session :
      (q : Caller) (c : Claims) (o : Option Session) (rows : List Session)
      → All (DeadRow user id) rows
      → All (DeadRow user id) (accept_session q c o rows).1
  unfolding accept_session
  dead-accept_session q c none rows h = h
  dead-accept_session q c (some s) rows h = dead-touch user id q s rows h

  dead-authenticate_claims :
      (q : Caller) (o : Option Claims) (rows : List Session)
      → All (DeadRow user id) rows
      → All (DeadRow user id) (authenticate_claims q o rows).1
  unfolding authenticate_claims
  dead-authenticate_claims q none rows h = h
  dead-authenticate_claims q (some c) rows h =
      dead-accept_session q c (find (is_current q.now c) rows) rows h

  -- No claims for a dead session are accepted.
  pub dead-refused :
      (q : Caller) (c : Claims) (rows : List Session) (o : Option Session)
      → c.session_id ≡ id
      → c.user_id ≡ user
      → All (DeadRow user id) rows
      → find (is_current q.now c) rows ≡ o
      → (accept_session q c o rows).0 ≡ none
  unfolding accept_session is_current
  dead-refused q c rows none i u h e = refl
  dead-refused q c rows (some s) i u h e = absurd (
      let current = find_sound (is_current q.now c) rows e in
      let dead = All-find (DeadRow user id) (is_current q.now c) rows h e in
      ground (arith, current, dead, i, u))

  pub dead-handle_session :
      (q : Caller) (r : SessionRequest) (rows : List Session)
      → All (DeadRow user id) rows
      → All (DeadRow user id) (handle_session verify q r rows).1
  unfolding handle_session authenticate_session handle_authenticated
  dead-handle_session q r rows h =
      handled (authenticate_claims q (claims_of verify q.authorization) rows)
        (dead-authenticate_claims q (claims_of verify q.authorization) rows h)
    where
      handled :
          (o : Option AuthenticatedSession × List Session)
          → All (DeadRow user id) o.1
          → All (DeadRow user id) (handle_authenticated q.now r o).1
      handled (none, rows') k = k
      handled (some a, rows') k = dead-serve_session user id q.now a r rows' k

-- Requests in a row.
abbrev pub handle_all :
    (Text → Option Claims) → List (Caller × SessionRequest) → List Session → List Session
handle_all verify [] rows = rows
handle_all verify ((q, r) ∷ rest) rows = handle_all verify rest (handle_session verify q r rows).1

dead-handle_all :
    (verify : Text → Option Claims) (user id : ℕ) (rs : List (Caller × SessionRequest))
    (rows : List Session)
    → All (DeadRow user id) rows
    → All (DeadRow user id) (handle_all verify rs rows)
dead-handle_all verify user id [] rows h = h
dead-handle_all verify user id ((q, r) ∷ rest) rows h =
    dead-handle_all verify user id rest _ (dead-handle_session verify user id q r rows h)

-- Whether a request revokes the session `id` of the user who asks.
abbrev pub revokes : AuthenticatedSession → SessionRequest → ℕ → Bool
revokes a (revoke_session i) id = i == id
revokes a revoke_others id = not (id == a.session_id)
revokes a _ id = false

dead-revoked :
    (user id now : ℕ) (reason : Text) (p : Session → Bool) (rows : List Session)
    → ((s : Session) → p s ≡ false → DeadRow user id s)
    → All (DeadRow user id) (update_where p (set_revoked now reason) rows)
unfolding set_revoked
dead-revoked user id now reason p [] k = tt
dead-revoked user id now reason p (s ∷ rows) k = elim (Bool-cases (p s)) [
  | inl e ↦ rw e (λ _. refl, dead-revoked user id now reason p rows k)
  | inr e ↦ rw e (k s e, dead-revoked user id now reason p rows k)
]

unmet-dead :
    (user i id : ℕ) (s : Session)
    → (i == id) ≡ true
    → revocable user i s ≡ false
    → DeadRow user id s
unmet-dead user i id s h n e = ground arith

unmet_other-dead :
    (a : AuthenticatedSession) (id : ℕ) (s : Session)
    → not (id == a.session_id) ≡ true
    → other_revocable a s ≡ false
    → DeadRow a.user_id id s
unmet_other-dead a id s h n e = ground arith

revoked-dead :
    (now : ℕ) (a : AuthenticatedSession) (r : SessionRequest) (id : ℕ) (rows : List Session)
    → revokes a r id ≡ true
    → All (DeadRow a.user_id id) (serve_session now a r rows).1
unfolding serve_session
revoked-dead now a (show_session i) id rows h = cc
revoked-dead now a (update_label i label) id rows h = cc
revoked-dead now a (revoke_session i) id rows h =
    elim (Option-cases (find (revocable a.user_id i) rows)) [
      | inl e ↦ rw e (
          All-imp (λ s. revocable a.user_id i s ≡ false) (DeadRow a.user_id id)
            (λ s n. unmet-dead a.user_id i id s h n) rows
            (find-none (revocable a.user_id i) rows e))
      | inr (s, e) ↦ rw e (
          dead-revoked a.user_id id now (codes "user_session_management") (revocable a.user_id i)
            rows (λ t n. unmet-dead a.user_id i id t h n))
    ]
revoked-dead now a revoke_others id rows h =
    dead-revoked a.user_id id now (codes "user_revoked_other_sessions") (other_revocable a) rows
      (λ t n. unmet_other-dead a id t h n)

-- Once a user has asked to revoke a session, by its id or with all the others, no token for it is
-- accepted again, whatever requests are handled in between and whatever is asked in them.
pub revoked_for_good :
    (verify : Text → Option Claims) (now : ℕ) (a : AuthenticatedSession) (r : SessionRequest)
    (id : ℕ) (rows : List Session) (later : List (Caller × SessionRequest)) (q : Caller)
    (c : Claims)
    → revokes a r id ≡ true
    → claims_of verify q.authorization ≡ some c
    → c.session_id ≡ id
    → c.user_id ≡ a.user_id
    → (authenticate_session verify q (handle_all verify later (serve_session now a r rows).1)).0
      ≡ none
unfolding authenticate_session authenticate_claims
revoked_for_good verify now a r id rows later q c h e i u =
    let rows' = handle_all verify later (serve_session now a r rows).1 in
    rw e (
      dead-refused verify a.user_id id q c rows' (find (is_current q.now c) rows') i u
        (dead-handle_all verify a.user_id id later _ (revoked-dead now a r id rows h)) refl)
