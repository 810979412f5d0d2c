-- ===== src/Authentication/Tokens.antt =====
-- src/controllers/AuthController.ts: refresh, logout and switchContext, on the rows of the sessions.
use qubit_hosting_panel.Common.{
  ℕ, Bool, true, false, not, ◌&&◌, Option, none, some, List, ◌==◌, ltb, any, is_some, coalesce,
  if◌then◌else◌,
}
use qubit_hosting_panel.Common.Text.{Text, codes, text_eq}
use qubit_hosting_panel.Common.Table.{find, update_where}
use qubit_hosting_panel.Sessions.{
  SessionContext, Session, Claims, RequestMetadata, AuthenticatedSession, claims_of,
}
use qubit_hosting_panel.Authorization.{PlatformUserRole, is_assigned}
use qubit_hosting_panel.Authentication.Model.{User, OtpSettings, Crypto, is_active}
use qubit_hosting_panel.Authentication.Codes.{hash_refresh_token}

pub data TokenAnswer : Type 0 where
  refresh_token_invalid session_invalid : TokenAnswer
  refreshed : Text → Text → TokenAnswer
  logged_out : TokenAnswer
  admin_not_permitted : TokenAnswer
  switched : SessionContext → Text → TokenAnswer
  unauthenticated refresh_failed : TokenAnswer
  profile_shown : User → TokenAnswer
  account_not_found : TokenAnswer

-- What refresh has read before it writes: the session, its user and the hash of the new token.
pub data RefreshPlan : Type 0 where
  token_unknown user_unknown refresh_throws : RefreshPlan
  rotate : Session → User → Text → RefreshPlan

unfoldable pub is_refreshable : Text → ℕ → Session → Bool
is_refreshable hash now s =
    text_eq s.refresh_token_hash hash
    && not (is_some s.revoked_at)
    && not s.deleted
    && ltb now s.expires_at

abbrev pub is_session_user : Session → User → Bool
is_session_user s u =
    u.id == s.user_id && is_active u.status && u.token_version == s.token_version && not u.deleted

unfoldable pub plan_user : Session → Option Text → Option User → RefreshPlan
plan_user s hash none = user_unknown
plan_user s none (some u) = refresh_throws
plan_user s (some hash) (some u) = rotate s u hash

unfoldable pub plan_session : Option Text → List User → Option Session → RefreshPlan
plan_session rotated users none = token_unknown
plan_session rotated users (some s) = plan_user s rotated (find (is_session_user s) users)

unfoldable pub plan_refresh : Option Text → Option Text → ℕ → List User → List Session → RefreshPlan
plan_refresh none rotated now users rows = refresh_throws
plan_refresh (some hash) rotated now users rows =
    plan_session rotated users (find (is_refreshable hash now) rows)

abbrev pub refresh_claims : Session → User → Claims
refresh_claims s u = record {
  context = s.active_context_type;
  session_id = s.id;
  user_id = u.id;
  token_version = s.token_version;
}

abbrev pub set_rotated : Text → ℕ → RequestMetadata → Session → Session → Session
set_rotated hash now md s t = record t {
  refresh_token_hash = hash;
  last_active_at = now;
  ip_address = coalesce md.ip_address s.ip_address;
  user_agent = coalesce md.user_agent s.user_agent;
}

abbrev pub access_answer : Text → Option Text → TokenAnswer
access_answer token none = refresh_failed
access_answer token (some access) = refreshed access token

-- Another session has the hash, which the unique index refuses.
abbrev pub hash_taken : Text → Session → Session → Bool
hash_taken hash s t = text_eq t.refresh_token_hash hash && not (t.id == s.id)

module _ (issue_access_token : Claims → Option Text) where
  -- The update, and the access token; a token that cannot be issued is a thrown error.
  unfoldable pub finish_refresh :
      RefreshPlan → Text → ℕ → RequestMetadata → List Session → TokenAnswer × List Session
  finish_refresh token_unknown token now md rows = (refresh_token_invalid, rows)
  finish_refresh user_unknown token now md rows = (session_invalid, rows)
  finish_refresh refresh_throws token now md rows = (refresh_failed, rows)
  finish_refresh (rotate s u hash) token now md rows =
      if any (hash_taken hash s) rows then (refresh_failed, rows) else (
        access_answer token (issue_access_token (refresh_claims s u)),
        update_where (λ t. t.id == s.id) (set_rotated hash now md s) rows,
      )

  module _ (k : Crypto) (env : OtpSettings) (secret : Option Text) where
    abbrev pub begin_refresh : Text → Text → ℕ → List User → List Session → RefreshPlan
    begin_refresh token rotated now users rows =
        plan_refresh (hash_refresh_token k env secret token)
          (hash_refresh_token k env secret rotated) now users rows

    -- `refresh`, with the new token that is drawn at random.
    unfoldable pub refresh :
        Text → Text → ℕ → RequestMetadata → List User → List Session → TokenAnswer × List Session
    refresh token rotated now md users rows =
        finish_refresh (begin_refresh token rotated now users rows) rotated now md rows

-- The rows that a logout revokes.
abbrev pub is_logged_out : Claims → Session → Bool
is_logged_out c s = s.id == c.session_id && s.user_id == c.user_id && not (is_some s.revoked_at)

abbrev pub set_logged_out : ℕ → Session → Session
set_logged_out now s = record s {
  revoked_at = some now;
  revoke_reason = some (codes "user_logout");
}

unfoldable pub logout_claims : ℕ → Option Claims → List Session → TokenAnswer × List Session
logout_claims now none rows = (unauthenticated, rows)
logout_claims now (some c) rows =
    (logged_out, update_where (is_logged_out c) (set_logged_out now) rows)

-- `logout`
unfoldable pub logout :
    (Text → Option Claims) → Option Text → ℕ → List Session → TokenAnswer × List Session
logout verify header now rows = logout_claims now (claims_of verify header) rows

unfoldable pub is_switchable : Claims → ℕ → Session → Bool
is_switchable c now s =
    s.id == c.session_id
    && s.user_id == c.user_id
    && not (is_some s.revoked_at)
    && not s.deleted
    && ltb now s.expires_at

abbrev pub is_admin_context : SessionContext → Bool
is_admin_context SessionContext.admin = true
is_admin_context _ = false

abbrev pub set_context : SessionContext → ℕ → Session → Session
set_context context now s = record s { active_context_type = context; last_active_at = now }

abbrev pub switch_claims : SessionContext → Session → Claims → Claims
switch_claims context s c = record {
  context = context;
  session_id = s.id;
  user_id = c.user_id;
  token_version = s.token_version;
}

abbrev pub switch_answer : SessionContext → Option Text → TokenAnswer
switch_answer context none = unauthenticated
switch_answer context (some token) = switched context token

module _ (issue_access_token : Claims → Option Text) where
  unfoldable pub switch_found :
      SessionContext
      → List PlatformUserRole
      → Claims
      → ℕ
      → Option Session
      → List Session
      → TokenAnswer × List Session
  switch_found context roles c now none rows = (unauthenticated, rows)
  switch_found context roles c now (some s) rows =
      if not (s.token_version == c.token_version)
      then (unauthenticated, rows)
      else (if is_admin_context context && not (any (is_assigned now c.user_id) roles)
          then (admin_not_permitted, rows)
          else (
            switch_answer context (issue_access_token (switch_claims context s c)),
            update_where (λ t. t.id == s.id) (set_context context now) rows,
          ))

  unfoldable pub switch_with :
      SessionContext
      → List PlatformUserRole
      → ℕ
      → Option Claims
      → List Session
      → TokenAnswer × List Session
  switch_with context roles now none rows = (unauthenticated, rows)
  switch_with context roles now (some c) rows =
      switch_found context roles c now (find (is_switchable c now) rows) rows

  -- `switchContext`, up to the new access token.
  unfoldable pub switch_context :
      (Text → Option Claims)
      → Option Text
      → SessionContext
      → List PlatformUserRole
      → ℕ
      → List Session
      → TokenAnswer × List Session
  switch_context verify header context roles now rows =
      switch_with context roles now (claims_of verify header) rows

unfoldable pub show_profile : Option User → TokenAnswer
show_profile none = account_not_found
show_profile (some u) = profile_shown u

-- `profile`, for the session that authenticateSession gave.
unfoldable pub profile : Option AuthenticatedSession → List User → TokenAnswer
profile none users = unauthenticated
profile (some a) users =
    show_profile (find (λ u. u.id == a.user_id && is_active u.status && not u.deleted) users)
