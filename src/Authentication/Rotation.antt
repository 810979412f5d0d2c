-- ===== src/Authentication/Rotation.antt =====
-- Sessions that have no longer the hash of a token, through all that the server is asked of tokens.
use qubit_hosting_panel.Common.{
  ℕ, ◌≡◌, refl, ap, Bool, false, not, ◌&&◌, Option, none, some, List, [], ◌∷◌, arith, ◌==◌, any,
  All, Bool-cases, inl, inr,
}
use qubit_hosting_panel.Common.Text.{Text, text_eq}
use qubit_hosting_panel.Common.Table.{find, find_sound, update_where, All-update_rows, All-find}
use qubit_hosting_panel.Sessions.{SessionContext, Session, Claims, RequestMetadata}
use qubit_hosting_panel.Authorization.{PlatformUserRole, is_assigned}
use qubit_hosting_panel.Authentication.Model.{User, OtpSettings, Crypto}
use qubit_hosting_panel.Authentication.Codes.{hash_refresh_token}
use qubit_hosting_panel.Authentication.Tokens.{
  TokenAnswer, refresh_token_invalid, RefreshPlan, token_unknown, user_unknown, refresh_throws,
  rotate, is_refreshable, plan_user, plan_session, plan_refresh, set_rotated, hash_taken,
  finish_refresh, refresh, set_logged_out, logout_claims, logout, is_admin_context, set_context,
  switch_found, switch_with, switch_context,
}

-- What the server is asked about sessions.
pub data TokenRequest : Type 0 where
  ask_refresh : Text → Text → ℕ → RequestMetadata → TokenRequest
  ask_logout : Option Text → ℕ → TokenRequest
  ask_context : Option Text → SessionContext → ℕ → TokenRequest

-- What the requests are answered with: the functions of the token library, the secret, and the tables
-- that they read.
pub record TokenServer : Type 0 where
  pub verify_access_token : Text → Option Claims
  pub issue_access_token : Claims → Option Text
  pub crypto : Crypto
  pub settings : OtpSettings
  pub refresh_secret : Option Text
  pub users : List User
  pub roles : List PlatformUserRole

abbrev pub hash_of : TokenServer → Text → Option Text
hash_of w token = hash_refresh_token w.crypto w.settings w.refresh_secret token

unfoldable pub serve_token : TokenServer → TokenRequest → List Session → TokenAnswer × List Session
serve_token w (ask_refresh token rotated now md) rows =
    refresh w.issue_access_token w.crypto w.settings w.refresh_secret token rotated now md w.users
      rows
serve_token w (ask_logout header now) rows = logout w.verify_access_token header now rows
serve_token w (ask_context header context now) rows =
    switch_context w.issue_access_token w.verify_access_token header context w.roles now rows

unfoldable pub serve_tokens : TokenServer → List TokenRequest → List Session → List Session
serve_tokens w [] rows = rows
serve_tokens w (r ∷ rs) rows = serve_tokens w rs (serve_token w r rows).1

-- No session has the hash.
abbrev pub Lacks : Text → Session → Type 0
Lacks hash s = text_eq s.refresh_token_hash hash ≡ false

-- A request that draws no token with the hash.
abbrev pub Spares : TokenServer → Text → TokenRequest → Type 0
Spares w hash (ask_refresh token rotated now md) =
    (h : Text) → hash_of w rotated ≡ some h → text_eq h hash ≡ false
Spares w hash (ask_logout header now) = Unit
Spares w hash (ask_context header context now) = Unit

module _ (w : TokenServer) (hash : Text) where
  pub finish-Lacks :
      (plan : RefreshPlan) (token : Text) (now : ℕ) (md : RequestMetadata) (rows : List Session)
      → ((s : Session) (u : User) (h : Text) → plan ≡ rotate s u h → text_eq h hash ≡ false)
      → All (Lacks hash) rows
      → All (Lacks hash) (finish_refresh w.issue_access_token plan token now md rows).1
  unfolding finish_refresh
  finish-Lacks token_unknown token now md rows k h = h
  finish-Lacks user_unknown token now md rows k h = h
  finish-Lacks refresh_throws token now md rows k h = h
  finish-Lacks (rotate s u g) token now md rows k h =
      elim (Bool-cases (any (hash_taken g s) rows)) [
        | inl e ↦ rw e h
        | inr e ↦ rw e (
            All-update_rows (Lacks hash) (Lacks hash) (λ t. t.id == s.id) (set_rotated g now md s)
              rows (λ t _ _. k s u g refl) (λ t _ l. l) h)
      ]

  planned-hash :
      (s : Session) (u : User) (h : Text) (s' : Session) (rotated : Option Text) (o : Option User)
      → plan_user s' rotated o ≡ rotate s u h
      → (s' ≡ s) × (rotated ≡ some h)
  unfolding plan_user
  planned-hash s u h s' rotated none e = cc
  planned-hash s u h s' none (some v) e = cc
  planned-hash s u h s' (some g) (some v) e = (ground arith, ground arith)

  planned-found :
      (s : Session) (u : User) (h : Text) (rotated : Option Text) (users : List User)
      (o : Option Session)
      → plan_session rotated users o ≡ rotate s u h
      → (o ≡ some s) × (rotated ≡ some h)
  unfolding plan_session
  planned-found s u h rotated users none e = cc
  planned-found s u h rotated users (some t) e =
      let (same, made) = planned-hash s u h t rotated _ e in (ap (λ x. some x) same, made)

  -- A rotation writes the hash of its new token, over the session found by the old.
  pub rotate-found :
      (o rotated : Option Text) (now : ℕ) (users : List User) (rows : List Session) (s : Session)
      (u : User) (h : Text)
      → plan_refresh o rotated now users rows ≡ rotate s u h
      → ((old : Text) × (o ≡ some old) × (find (is_refreshable old now) rows ≡ some s))
        × (rotated ≡ some h)
  unfolding plan_refresh
  rotate-found none rotated now users rows s u h e = cc
  rotate-found (some old) rotated now users rows s u h e =
      let (found, made) = planned-found s u h rotated users _ e in ((old, refl, found), made)

  update-Lacks :
      (p : Session → Bool) (f : Session → Session) (rows : List Session)
      → ((s : Session) → (f s).refresh_token_hash ≡ s.refresh_token_hash)
      → All (Lacks hash) rows
      → All (Lacks hash) (update_where p f rows)
  update-Lacks p f rows k h =
      All-update_rows (Lacks hash) (Lacks hash) p f rows (λ s _ l. rw (k s) l) (λ s _ l. l) h

  logout-Lacks :
      (now : ℕ) (o : Option Claims) (rows : List Session)
      → All (Lacks hash) rows
      → All (Lacks hash) (logout_claims now o rows).1
  unfolding logout_claims
  logout-Lacks now none rows h = h
  logout-Lacks now (some c) rows h = update-Lacks _ (set_logged_out now) rows (λ s. refl) h

  switch_found-Lacks :
      (context : SessionContext) (c : Claims) (now : ℕ) (o : Option Session) (rows : List Session)
      → All (Lacks hash) rows
      → All (Lacks hash) (switch_found w.issue_access_token context w.roles c now o rows).1
  unfolding switch_found
  switch_found-Lacks context c now none rows h = h
  switch_found-Lacks context c now (some s) rows h =
      elim (Bool-cases (s.token_version == c.token_version)) [
        | inl e ↦
            elim (Bool-cases
              (is_admin_context context && not (any (is_assigned now c.user_id) w.roles))) [
                | inl x ↦ rw (e, x) h
                | inr x ↦ rw (e, x) (update-Lacks _ (set_context context now) rows (λ s. refl) h)
              ]
        | inr e ↦ rw e h
      ]

  switch_with-Lacks :
      (context : SessionContext) (now : ℕ) (o : Option Claims) (rows : List Session)
      → All (Lacks hash) rows
      → All (Lacks hash) (switch_with w.issue_access_token context w.roles now o rows).1
  unfolding switch_with
  switch_with-Lacks context now none rows h = h
  switch_with-Lacks context now (some c) rows h = switch_found-Lacks context c now _ rows h

  serve_token-Lacks :
      (r : TokenRequest) (rows : List Session)
      → Spares w hash r
      → All (Lacks hash) rows
      → All (Lacks hash) (serve_token w r rows).1
  unfolding serve_token refresh logout switch_context
  serve_token-Lacks (ask_refresh token rotated now md) rows k h =
      finish-Lacks _ rotated now md rows
        (λ s u g e.
          k g (rotate-found (hash_of w token) (hash_of w rotated) now w.users rows s u g e).1)
        h
  serve_token-Lacks (ask_logout header now) rows k h = logout-Lacks now _ rows h
  serve_token-Lacks (ask_context header context now) rows k h =
      switch_with-Lacks context now _ rows h

  pub serve_tokens-Lacks :
      (rs : List TokenRequest) (rows : List Session)
      → All (Spares w hash) rs
      → All (Lacks hash) rows
      → All (Lacks hash) (serve_tokens w rs rows)
  unfolding serve_tokens
  serve_tokens-Lacks [] rows k h = h
  serve_tokens-Lacks (r ∷ rs) rows k h =
      serve_tokens-Lacks rs _ k.1 (serve_token-Lacks r rows k.0 h)

  lacking-unknown :
      (now : ℕ) (rows : List Session) (o : Option Session)
      → All (Lacks hash) rows
      → find (is_refreshable hash now) rows ≡ o
      → o ≡ none
  unfolding is_refreshable
  lacking-unknown now rows none h e = refl
  lacking-unknown now rows (some s) h e =
      let met = find_sound (is_refreshable hash now) rows e in
      let lacks = All-find (Lacks hash) (is_refreshable hash now) rows h e in
      absurd (ground (arith, met, lacks))

  -- A token whose hash no session has is refused.
  pub lacking-refused :
      (token rotated : Text) (now : ℕ) (md : RequestMetadata) (rows : List Session)
      → hash_of w token ≡ some hash
      → All (Lacks hash) rows
      → (serve_token w (ask_refresh token rotated now md) rows).0 ≡ refresh_token_invalid
  unfolding serve_token refresh plan_refresh plan_session finish_refresh
  lacking-refused token rotated now md rows e h =
      rw (e, lacking-unknown now rows (find (is_refreshable hash now) rows) h refl) refl
