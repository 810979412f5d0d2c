-- ===== src/Authentication/Logouts.antt =====
-- A session that its user has logged out of.
use qubit_hosting_panel.Common.{
  ℕ, ◌≡◌, refl, false, not, ◌&&◌, Option, none, some, List, [], ◌∷◌, arith, ◌==◌, any, All,
  Bool-cases, inl, inr,
}
use qubit_hosting_panel.Common.Text.{Text}
use qubit_hosting_panel.Common.Table.{find, find_sound, update_where, All-find}
use qubit_hosting_panel.Sessions.{
  SessionContext, Session, Claims, RequestMetadata, Caller, SessionRequest, claims_of, is_current,
  authenticate_claims, authenticate_session, handle_session,
}
use qubit_hosting_panel.Sessions.Revocation.{
  DeadRow, dead-update_where, dead-handle_session, dead-refused,
}
use qubit_hosting_panel.Authorization.{is_assigned}
use qubit_hosting_panel.Authentication.Model.{User}
use qubit_hosting_panel.Authentication.Tokens.{
  RefreshPlan, token_unknown, user_unknown, refresh_throws, rotate, is_refreshable, set_rotated,
  hash_taken, finish_refresh, refresh, is_logged_out, set_logged_out, logout_claims, logout,
  is_admin_context, set_context, switch_found, switch_with, switch_context,
}
use qubit_hosting_panel.Authentication.Rotation.{
  TokenRequest, ask_refresh, ask_logout, ask_context, TokenServer, hash_of, serve_token,
  rotate-found,
}
use qubit_hosting_panel.Authentication.Spent.{plan_of}

-- What happens to the sessions: a request about tokens, or one of their users' controller.
pub data SessionStep : Type 0 where
  token_step : TokenRequest → SessionStep
  user_step : Caller → SessionRequest → SessionStep

unfoldable pub take_step : TokenServer → SessionStep → List Session → List Session
take_step w (token_step r) rows = (serve_token w r rows).1
take_step w (user_step q r) rows = (handle_session w.verify_access_token q r rows).1

unfoldable pub take_steps : TokenServer → List SessionStep → List Session → List Session
take_steps w [] rows = rows
take_steps w (s ∷ ss) rows = take_steps w ss (take_step w s rows)

module _ (w : TokenServer) (user id : ℕ) where
  dead-finish_refresh :
      (plan : RefreshPlan) (token : Text) (now : ℕ) (md : RequestMetadata) (rows : List Session)
      → All (DeadRow user id) rows
      → All (DeadRow user id) (finish_refresh w.issue_access_token plan token now md rows).1
  unfolding finish_refresh
  dead-finish_refresh token_unknown token now md rows h = h
  dead-finish_refresh user_unknown token now md rows h = h
  dead-finish_refresh refresh_throws token now md rows h = h
  dead-finish_refresh (rotate s u g) token now md rows h =
      elim (Bool-cases (any (hash_taken g s) rows)) [
        | inl e ↦ rw e h
        | inr e ↦ rw e (
            dead-update_where user id (λ t. t.id == s.id) (set_rotated g now md s) rows
              (record { dead = λ u i t d. d }) h)
      ]

  dead-logout_claims :
      (now : ℕ) (o : Option Claims) (rows : List Session)
      → All (DeadRow user id) rows
      → All (DeadRow user id) (logout_claims now o rows).1
  unfolding logout_claims
  dead-logout_claims now none rows h = h
  dead-logout_claims now (some c) rows h =
      dead-update_where user id (is_logged_out c) (set_logged_out now) rows
        (record { dead = λ u i t d _. refl }) h

  dead-switch_found :
      (context : SessionContext) (c : Claims) (now : ℕ) (o : Option Session) (rows : List Session)
      → All (DeadRow user id) rows
      → All (DeadRow user id) (switch_found w.issue_access_token context w.roles c now o rows).1
  unfolding switch_found
  dead-switch_found context c now none rows h = h
  dead-switch_found context c now (some s) rows h =
      elim (Bool-cases (s.token_version == c.token_version)) [
        | inl e ↦
            elim (Bool-cases
              (is_admin_context context && not (any (is_assigned now c.user_id) w.roles))) [
                | inl x ↦ rw (e, x) h
                | inr x ↦
                    rw (e, x)
                      (dead-update_where user id (λ t. t.id == s.id) (set_context context now) rows
                        (record { dead = λ u i t d. d }) h)
              ]
        | inr e ↦ rw e h
      ]

  dead-switch_with :
      (context : SessionContext) (now : ℕ) (o : Option Claims) (rows : List Session)
      → All (DeadRow user id) rows
      → All (DeadRow user id) (switch_with w.issue_access_token context w.roles now o rows).1
  unfolding switch_with
  dead-switch_with context now none rows h = h
  dead-switch_with context now (some c) rows h = dead-switch_found context c now _ rows h

  dead-take_step :
      (s : SessionStep) (rows : List Session)
      → All (DeadRow user id) rows
      → All (DeadRow user id) (take_step w s rows)
  unfolding take_step serve_token refresh logout switch_context
  dead-take_step (token_step (ask_refresh token rotated now md)) rows h =
      dead-finish_refresh _ rotated now md rows h
  dead-take_step (token_step (ask_logout header now)) rows h = dead-logout_claims now _ rows h
  dead-take_step (token_step (ask_context header context now)) rows h =
      dead-switch_with context now _ rows h
  dead-take_step (user_step q r) rows h =
      dead-handle_session w.verify_access_token user id q r rows h

  dead-take_steps :
      (ss : List SessionStep) (rows : List Session)
      → All (DeadRow user id) rows
      → All (DeadRow user id) (take_steps w ss rows)
  unfolding take_steps
  dead-take_steps [] rows h = h
  dead-take_steps (s ∷ ss) rows h = dead-take_steps ss _ (dead-take_step s rows h)

  -- No refresh token of a dead session is exchanged.
  dead-unrefreshed :
      (token rotated : Text) (now : ℕ) (rows : List Session) (s : Session) (u : User) (h : Text)
      → All (DeadRow user id) rows
      → plan_of w token rotated now rows ≡ rotate s u h
      → (s.id == id && s.user_id == user) ≡ false
  unfolding is_refreshable
  dead-unrefreshed token rotated now rows s u h d p =
      let ((old, _, found), _) =
        rotate-found w h (hash_of w token) (hash_of w rotated) now w.users rows s u h p in
      let met = find_sound (is_refreshable old now) rows found in
      let dead = All-find (DeadRow user id) (is_refreshable old now) rows d found in
      ground (arith, met, dead)

logged_out-dead :
    (now : ℕ) (c : Claims) (rows : List Session)
    → All
        (DeadRow c.user_id c.session_id)
        (update_where (is_logged_out c) (set_logged_out now) rows)
logged_out-dead now c [] = tt
logged_out-dead now c (s ∷ rows) = elim (Bool-cases (is_logged_out c s)) [
  | inl e ↦ rw e (λ _. refl, logged_out-dead now c rows)
  | inr e ↦ rw e (λ g. ground (arith, e, g), logged_out-dead now c rows)
]

-- After a logout, no access token for the session is accepted and no refresh token of it exchanged,
-- whatever the server is asked in between.
pub logged_out_for_good :
    (w : TokenServer) (header : Option Text) (now : ℕ) (c : Claims) (rows : List Session)
    (ss : List SessionStep)
    → claims_of w.verify_access_token header ≡ some c
    → ((q : Caller) (d : Claims)
        → claims_of w.verify_access_token q.authorization ≡ some d
        → d.session_id ≡ c.session_id
        → d.user_id ≡ c.user_id
        → (authenticate_session w.verify_access_token q
            (take_steps w ss (serve_token w (ask_logout header now) rows).1)).0
          ≡ none)
      × ((token rotated : Text) (later : ℕ) (s : Session) (u : User) (h : Text)
          → plan_of w token rotated later
              (take_steps w ss (serve_token w (ask_logout header now) rows).1)
            ≡ rotate s u h
          → (s.id == c.session_id && s.user_id == c.user_id) ≡ false)
unfolding serve_token logout logout_claims authenticate_session authenticate_claims
logged_out_for_good w header now c rows ss e =
    let start = update_where (is_logged_out c) (set_logged_out now) rows in
    let dead = dead-take_steps w c.user_id c.session_id ss start (logged_out-dead now c rows) in
    let after = take_steps w ss start in
    rw e (
      λ q d f i u. rw f (
          dead-refused w.verify_access_token c.user_id c.session_id q d after
            (find (is_current q.now d) after) i u dead refl),
      λ token rotated later s u h p.
          dead-unrefreshed w c.user_id c.session_id token rotated later after s u h dead p,
    )
