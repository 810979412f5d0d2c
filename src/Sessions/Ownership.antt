-- ===== src/Sessions/Ownership.antt =====
-- Which sessions a user reaches.
use qubit_hosting_panel.Common.{
  ℕ, ◌≡◌, refl, subst, Bool, true, false, Option, none, some, List, arith, ◌==◌, is_some, Pointwise,
  Pointwise-refl,
}
use qubit_hosting_panel.Common.Text.{Text, codes}
use qubit_hosting_panel.Common.Table.{find, find_sound, update_where, Pointwise-update_where}
use qubit_hosting_panel.Sessions.{
  Session, Claims, Caller, AuthenticatedSession, authenticated_as, SessionRequest, show_session,
  update_label, revoke_session, revoke_others, SessionResponse, answer_met, shown, label_updated,
  revoked, show_found, accept_session, is_current, claims_of, authenticate_claims,
  authenticate_session, owned_session, revocable, other_revocable, set_revoked, serve_session,
}

-- A row of another user stays as it is.
abbrev pub OthersKept : ℕ → Session → Session → Type 0
OthersKept user s t = (s.user_id == user) ≡ false → t ≡ s

update-OthersKept :
    (user : ℕ) (p : Session → Bool) (f : Session → Session) (rows : List Session)
    → ((s : Session) → p s ≡ true → (s.user_id == user) ≡ true)
    → Pointwise (OthersKept user) rows (update_where p f rows)
update-OthersKept user p f rows k =
    Pointwise-update_where (OthersKept user) p f rows (λ s e n. cc (k s e, n)) (λ s _. refl)

updated-OthersKept :
    (user : ℕ) (p : Session → Bool) (f : Session → Session) (r : SessionResponse)
    (rows : List Session) (met : Bool)
    → ((s : Session) → p s ≡ true → (s.user_id == user) ≡ true)
    → Pointwise (OthersKept user) rows (answer_met met r (update_where p f rows) rows).1
updated-OthersKept user p f r rows true k = update-OthersKept user p f rows k
updated-OthersKept user p f r rows false k = Pointwise-refl (OthersKept user) (λ s _. refl) rows

shown-owned :
    (user id : ℕ) (rows : List Session) (o : Option Session) (s : Session)
    → find (owned_session user id) rows ≡ o
    → show_found o ≡ shown s
    → (s.user_id == user) ≡ true
unfolding show_found
shown-owned user id rows none s e h = cc
shown-owned user id rows (some t) s e h =
    let same : t ≡ s = ground arith in
    let mine = find_sound (owned_session user id) rows e in
    subst (λ x. (x.user_id == user) ≡ true) same (ground (arith, mine))

-- An operation of an authenticated user changes no row of another user, and a session that it shows
-- is the user's own, whatever id was asked for.
pub serve_session-OthersKept :
    (now : ℕ) (a : AuthenticatedSession) (r : SessionRequest) (rows : List Session)
    → Pointwise (OthersKept a.user_id) rows (serve_session now a r rows).1
      × ((s : Session) → (serve_session now a r rows).0 ≡ shown s → (s.user_id == a.user_id) ≡ true)
unfolding serve_session
serve_session-OthersKept now a (show_session id) rows = (
  Pointwise-refl (OthersKept a.user_id) (λ s _. refl) rows,
  λ s h. shown-owned a.user_id id rows (find (owned_session a.user_id id) rows) s refl h,
)
serve_session-OthersKept now a (update_label id label) rows = (
  updated-OthersKept a.user_id (owned_session a.user_id id)
      (λ s. record s { device_label = some label }) label_updated rows
      (is_some (find (owned_session a.user_id id) rows)) (λ s e. ground arith),
  λ s h. ground arith,
)
serve_session-OthersKept now a (revoke_session id) rows = (
  updated-OthersKept a.user_id (revocable a.user_id id)
      (set_revoked now (codes "user_session_management")) revoked rows
      (is_some (find (revocable a.user_id id) rows)) (λ s e. ground arith),
  λ s h. ground arith,
)
serve_session-OthersKept now a revoke_others rows = (
  update-OthersKept a.user_id (other_revocable a)
      (set_revoked now (codes "user_revoked_other_sessions")) rows (λ s e. ground arith),
  λ s h. cc,
)

accepted-current :
    (q : Caller) (c : Claims) (o : Option Session) (rows : List Session) (a : AuthenticatedSession)
    → (accept_session q c o rows).0 ≡ some a
    → (s : Session) × (o ≡ some s) × (a ≡ authenticated_as c s)
unfolding accept_session
accepted-current q c none rows a h = cc
accepted-current q c (some s) rows a h = (s, refl, ground arith)

claims-current :
    (q : Caller) (o : Option Claims) (rows : List Session) (a : AuthenticatedSession)
    → (authenticate_claims q o rows).0 ≡ some a
    → (c : Claims) × (s : Session) × (o ≡ some c)
      × (find (is_current q.now c) rows ≡ some s)
      × (a ≡ authenticated_as c s)
unfolding authenticate_claims
claims-current q none rows a h = cc
claims-current q (some c) rows a h =
    let (s, e, f) = accepted-current q c (find (is_current q.now c) rows) rows a h in
    (c, s, refl, e, f)

-- An authenticated request has a bearer token that verifies and that names a session of its user
-- with the token's version, neither revoked nor deleted nor expired, and gets that session's ids.
pub authenticate_session_lem :
    (verify : Text → Option Claims) (q : Caller) (rows : List Session) (a : AuthenticatedSession)
    → (authenticate_session verify q rows).0 ≡ some a
    → (c : Claims) × (s : Session) × (claims_of verify q.authorization ≡ some c)
      × (find (is_current q.now c) rows ≡ some s)
      × (is_current q.now c s ≡ true)
      × (a ≡ authenticated_as c s)
unfolding authenticate_session
authenticate_session_lem verify q rows a h =
    let (c, s, e, f, g) = claims-current q (claims_of verify q.authorization) rows a h in
    (c, s, e, f, find_sound (is_current q.now c) rows f, g)
