-- ===== src/Sessions.antt =====
-- src/services/auth/authenticatedSessionService.ts and src/controllers/SessionController.ts: bearer
-- tokens are checked against the sessions' rows, and users manage their own sessions.
pub mod Revocation
pub mod Ownership
mod Tests
use qubit_hosting_panel.Common.{
  ℕ, ◌+◌, Bool, true, false, not, ◌&&◌, ◌||◌, Option, none, some, List, [], ◌∷◌, ◌==◌, ltb, leb,
  is_some, coalesce, length, map, if◌then◌else◌,
}
use qubit_hosting_panel.Common.Text.{Text, codes, text_eq, is_empty, to_lower}
use qubit_hosting_panel.Common.Table.{find, update_where, count_where}

pub data SessionContext : Type 0 where
  personal admin organisation : SessionContext

pub record Session : Type 0 where
  pub id : ℕ
  pub user_id : ℕ
  pub refresh_token_hash : Text
  pub token_version : ℕ
  pub active_context_type : SessionContext
  pub device_label : Option Text
  pub ip_address : Option Text
  pub user_agent : Option Text
  pub last_active_at : ℕ
  pub expires_at : ℕ
  pub revoked_at : Option ℕ
  pub revoke_reason : Option Text
  pub deleted : Bool

pub record Claims : Type 0 where
  pub context : SessionContext
  pub session_id : ℕ
  pub user_id : ℕ
  pub token_version : ℕ

pub record RequestMetadata : Type 0 where
  pub ip_address : Option Text
  pub user_agent : Option Text

pub record AuthenticatedSession : Type 0 where
  pub context : SessionContext
  pub session_id : ℕ
  pub user_id : ℕ

-- A request: its authorization header, its metadata and the time.
pub record Caller : Type 0 where
  pub authorization : Option Text
  pub metadata : RequestMetadata
  pub now : ℕ

-- The text before the first space, and what follows it up to the next.
unfoldable pub word : Text → Text
word [] = []
word (c ∷ s) = let rest = word s in if c == 32 then [] else c ∷ rest

unfoldable pub after_word : Text → Option Text
after_word [] = none
after_word (c ∷ s) = if c == 32 then some (word s) else after_word s

-- `const [scheme, token] = header?.split(' ') ?? []`, and the test of both; `none` is refused.
unfoldable pub bearer_token : Option Text → Option Text
bearer_token none = none
bearer_token (some header) = elim (after_word header) [
  | none ↦ none
  | some token ↦
      if text_eq (to_lower (word header)) (codes "bearer") && not (is_empty token)
      then some token
      else none
]

-- The `where` of the select.
unfoldable pub is_current : ℕ → Claims → Session → Bool
is_current now c s =
    s.id == c.session_id
    && s.user_id == c.user_id
    && s.token_version == c.token_version
    && not (is_some s.revoked_at)
    && not s.deleted
    && ltb now s.expires_at

-- The activity is written at most once a minute.
unfoldable pub touch : Caller → Session → List Session → List Session
touch q s rows =
    if leb (s.last_active_at + 60000) q.now
    then update_where (λ t. t.id == s.id)
        (λ t. record t {
          last_active_at = q.now;
          ip_address = coalesce q.metadata.ip_address s.ip_address;
          user_agent = coalesce q.metadata.user_agent s.user_agent;
        })
        rows
    else rows

abbrev pub authenticated_as : Claims → Session → AuthenticatedSession
authenticated_as c s = record { context = c.context; session_id = s.id; user_id = s.user_id }

-- `if (!session) throw`, else the activity and the result.
unfoldable pub accept_session :
    Caller → Claims → Option Session → List Session → Option AuthenticatedSession × List Session
accept_session q c none rows = (none, rows)
accept_session q c (some s) rows = (some (authenticated_as c s), touch q s rows)

unfoldable pub authenticate_claims :
    Caller → Option Claims → List Session → Option AuthenticatedSession × List Session
authenticate_claims q none rows = (none, rows)
authenticate_claims q (some c) rows = accept_session q c (find (is_current q.now c) rows) rows

module _ (verify_access_token : Text → Option Claims) where
  -- The claims of the token, if the header has one that is verified.
  unfoldable pub claims_of : Option Text → Option Claims
  claims_of header = elim (bearer_token header) [
    | none ↦ none
    | some token ↦ verify_access_token token
  ]

  -- `authenticateSession`: `none` is a thrown error.
  unfoldable pub authenticate_session :
      Caller → List Session → Option AuthenticatedSession × List Session
  authenticate_session q rows = authenticate_claims q (claims_of q.authorization) rows

-- The rows of one user that are not deleted.
abbrev pub owned : ℕ → Session → Bool
owned user s = s.user_id == user && not s.deleted

abbrev pub owned_session : ℕ → ℕ → Session → Bool
owned_session user id s = s.id == id && owned user s

abbrev pub revocable : ℕ → ℕ → Session → Bool
revocable user id s = owned_session user id s && not (is_some s.revoked_at)

abbrev pub other_revocable : AuthenticatedSession → Session → Bool
other_revocable a s = owned a.user_id s && not (s.id == a.session_id) && not (is_some s.revoked_at)

unfoldable pub set_revoked : ℕ → Text → Session → Session
set_revoked now reason s = record s { revoked_at = some now; revoke_reason = some reason }

-- What an authenticated user may ask for.
pub data SessionRequest : Type 0 where
  show_session : ℕ → SessionRequest
  update_label : ℕ → Text → SessionRequest
  revoke_session : ℕ → SessionRequest
  revoke_others : SessionRequest

pub data SessionResponse : Type 0 where
  authentication_required session_not_found : SessionResponse
  shown : Session → SessionResponse
  label_updated revoked : SessionResponse
  others_revoked : ℕ → SessionResponse

abbrev pub answer_met :
    Bool → SessionResponse → List Session → List Session → SessionResponse × List Session
answer_met true response updated rows = (response, updated)
answer_met false response updated rows = (SessionResponse.session_not_found, rows)

-- An update that answers whether it met a row.
abbrev pub update_or_missing :
    (Session → Bool)
    → (Session → Session)
    → SessionResponse
    → List Session
    → SessionResponse × List Session
update_or_missing p f response rows =
    answer_met (is_some (find p rows)) response (update_where p f rows) rows

unfoldable pub show_found : Option Session → SessionResponse
show_found none = SessionResponse.session_not_found
show_found (some s) = shown s

unfoldable pub serve_session :
    ℕ → AuthenticatedSession → SessionRequest → List Session → SessionResponse × List Session
serve_session now a (show_session id) rows =
    (show_found (find (owned_session a.user_id id) rows), rows)
serve_session now a (update_label id label) rows =
    update_or_missing (owned_session a.user_id id) (λ s. record s { device_label = some label })
      label_updated rows
serve_session now a (revoke_session id) rows =
    update_or_missing (revocable a.user_id id) (set_revoked now (codes "user_session_management"))
      revoked rows
serve_session now a revoke_others rows = (
  others_revoked (count_where (other_revocable a) rows),
  update_where (other_revocable a) (set_revoked now (codes "user_revoked_other_sessions")) rows,
)

-- A request of the controller: first the session, then the operation.
unfoldable pub handle_authenticated :
    ℕ → SessionRequest → Option AuthenticatedSession × List Session → SessionResponse × List Session
handle_authenticated now r (none, rows) = (authentication_required, rows)
handle_authenticated now r (some a, rows) = serve_session now a r rows

unfoldable pub handle_session :
    (Text → Option Claims) → Caller → SessionRequest → List Session → SessionResponse × List Session
handle_session verify q r rows = handle_authenticated q.now r (authenticate_session verify q rows)
