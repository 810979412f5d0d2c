-- ===== src/Sessions/Tests.antt =====
-- Two sessions of one user, one of which is revoked by the other.
use qubit_hosting_panel.Common.{
  ℕ, ◌≡◌, refl, true, false, Option, none, some, List, [], ◌∷◌, ◌++◌, ◌==◌, Pointwise,
}
use qubit_hosting_panel.Common.Text.{Text, codes, text_eq, to_lower}
use qubit_hosting_panel.Sessions.{
  SessionContext, Session, Claims, Caller, AuthenticatedSession, revoke_others, show_session, shown,
  word, after_word, bearer_token, is_current, claims_of, accept_session, authenticate_claims,
  authenticate_session, serve_session,
}
use qubit_hosting_panel.Sessions.Revocation.{handle_all, revoked_for_good}
use qubit_hosting_panel.Sessions.Ownership.{OthersKept, serve_session-OthersKept}

abbrev session : ℕ → Session
session n = record {
  id = n;
  user_id = 7;
  refresh_token_hash = codes "a1";
  token_version = 1;
  active_context_type = SessionContext.personal;
  device_label = none;
  ip_address = none;
  user_agent = none;
  last_active_at = 1000;
  expires_at = 900000;
  revoked_at = none;
  revoke_reason = none;
  deleted = false;
}

abbrev rows : List Session
rows = session 1 ∷ session 2 ∷ []

abbrev token_claims : ℕ → Claims
token_claims n = record {
  context = SessionContext.personal;
  session_id = n;
  user_id = 7;
  token_version = 1;
}

-- Tokens are one unit long, the number of the session.
abbrev verify : Text → Option Claims
verify [] = none
verify (n ∷ s) = some (token_claims n)

abbrev caller : ℕ → Caller
caller n = record {
  authorization = some (codes "Bearer " ++ n ∷ []);
  metadata = record { ip_address = none; user_agent = none };
  now = 5000;
}

abbrev current : AuthenticatedSession
current = record { context = SessionContext.personal; session_id = 1; user_id = 7 }

claims_test : claims_of verify (caller 2).authorization ≡ some (token_claims 2)
unfolding claims_of bearer_token word after_word to_lower text_eq
claims_test = refl

authenticate_test :
    (authenticate_session verify (caller 2) rows).0
    ≡ some (record { context = SessionContext.personal; session_id = 2; user_id = 7 })
unfolding authenticate_session claims_of bearer_token word after_word to_lower text_eq
    authenticate_claims is_current accept_session
authenticate_test = refl

revoked_for_good_example :
    (authenticate_session verify (caller 2) (
      handle_all verify
        ((caller 2, show_session 1) ∷ [])
        (serve_session 4000 current revoke_others rows).1)).0
    ≡ none
revoked_for_good_example =
    revoked_for_good verify 4000 current revoke_others 2 rows ((caller 2, show_session 1) ∷ [])
      (caller 2) (token_claims 2) refl claims_test refl refl

serve_session-OthersKept_example :
    Pointwise (OthersKept 7) rows (serve_session 4000 current (show_session 2) rows).1
    × ((s : Session)
        → (serve_session 4000 current (show_session 2) rows).0 ≡ shown s
        → (s.user_id == 7) ≡ true)
serve_session-OthersKept_example = serve_session-OthersKept 4000 current (show_session 2) rows
