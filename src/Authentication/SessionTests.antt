-- ===== src/Authentication/SessionTests.antt =====
-- A session that is refreshed, handed over and logged out of.
use qubit_hosting_panel.Common.{
  ◌<◌, ℕ, ◌≡◌, refl, true, false, ◌&&◌, Option, none, some, List, [], ◌∷◌, ◌==◌,
}
use qubit_hosting_panel.Common.Text.{starts_with, Text, codes, text_eq, to_lower}
use qubit_hosting_panel.Sessions.{
  AuthenticatedSession, SessionContext, Session, Claims, Caller, show_session, claims_of,
  authenticate_session, word, after_word, bearer_token,
}
use qubit_hosting_panel.Authentication.Model.{User, Accounts, Crypto, require_otp_secret}
use qubit_hosting_panel.Authentication.Codes.{
  insert_session, hash_refresh_token, insert_hashed, create_session,
}
use qubit_hosting_panel.Authentication.Tokens.{
  RefreshPlan, refreshed, refresh_token_invalid, rotate, is_refreshable, plan_user, plan_session,
  plan_refresh,
}
use qubit_hosting_panel.Authentication.Rotation.{
  ask_refresh, ask_logout, ask_context, TokenServer, serve_token, serve_tokens,
}
use qubit_hosting_panel.Authentication.Spent.{
  plan_of, answer_of, finish_of, spent_for_good, refresh_together,
}
use qubit_hosting_panel.Authentication.Logouts.{
  SessionStep, token_step, user_step, take_steps, logged_out_for_good,
}
use qubit_hosting_panel.Authentication.Handoffs.{
  HandoffRequest, create_handoff, insert_handoff, handoff_created, handoff_invalid, established,
  establish, establish_for, consume_handoff,
}
use qubit_hosting_panel.Authentication.HandoffSteps.{
  create_step, HandoffTables, take_handoff_step, consume_step, HandoffServer, take_handoff_steps,
  consume_of,
}
use qubit_hosting_panel.Authentication.Handed.{handed_over_once}
use qubit_hosting_panel.Authentication.Samples.{settings, long_secret, user, metadata, fresh}

abbrev crypto : Crypto
crypto = record { hmac = λ s t. t; encrypt = λ t. some t; decrypt = λ t. some t }

abbrev session : Session
session = record {
  id = 1;
  user_id = 7;
  refresh_token_hash = codes "a";
  token_version = 1;
  active_context_type = SessionContext.personal;
  device_label = none;
  ip_address = none;
  user_agent = none;
  last_active_at = 1000;
  expires_at = 900000;
  revoked_at = none;
  revoke_reason = none;
  deleted = false;
}

abbrev token_claims : Claims
token_claims = record {
  context = SessionContext.personal;
  session_id = 1;
  user_id = 7;
  token_version = 1;
}

abbrev server : TokenServer
server = record {
  verify_access_token = λ t. some token_claims;
  issue_access_token = λ c. some (codes "access");
  crypto = crypto;
  settings = settings;
  refresh_secret = some long_secret;
  users = user ∷ [];
  roles = [];
}

abbrev header : Option Text
header = some (codes "Bearer x")

plan_test :
    plan_of server (codes "a") (codes "b") 2000 (session ∷ []) ≡ rotate session user (codes "b")
unfolding hash_refresh_token require_otp_secret plan_refresh plan_session plan_user is_refreshable
    text_eq
plan_test = refl

other_plan_test :
    plan_of server (codes "a") (codes "c") 2000 (session ∷ []) ≡ rotate session user (codes "c")
unfolding hash_refresh_token require_otp_secret plan_refresh plan_session plan_user is_refreshable
    text_eq
other_plan_test = refl

spent_for_good_example :
    (serve_token server (ask_refresh (codes "a") (codes "d") 4000 metadata) (
      serve_tokens server
        (ask_context header SessionContext.personal 3000 ∷ [])
        (serve_token server
          (ask_refresh (codes "a") (codes "b") 2000 metadata)
          (session ∷ [])).1)).0
    ≡ refresh_token_invalid
unfolding hash_refresh_token require_otp_secret text_eq
spent_for_good_example =
    spent_for_good server (codes "a") (codes "b") (codes "a") (codes "b") 2000 metadata
      (session ∷ []) session user (ask_context header SessionContext.personal 3000 ∷ []) (codes "d")
      4000 metadata plan_test refl refl refl (λ _. refl, tt) (tt, tt)

abbrev first_plan : RefreshPlan
first_plan = plan_of server (codes "a") (codes "b") 2000 (session ∷ [])

abbrev second_plan : RefreshPlan
second_plan = plan_of server (codes "a") (codes "c") 2000 (session ∷ [])

abbrev after_first : List Session
after_first = finish_of server first_plan (codes "b") 2000 metadata (session ∷ [])

refresh_together_example :
    (answer_of server first_plan (codes "b") 2000 metadata (session ∷ [])
      ≡ refreshed (codes "access") (codes "b"))
    × (answer_of server second_plan (codes "c") 2000 metadata after_first
        ≡ refreshed (codes "access") (codes "c"))
    × ((serve_token server
          (ask_refresh (codes "b") (codes "d") 4000 metadata)
          (finish_of server second_plan (codes "c") 2000 metadata after_first)).0
        ≡ refresh_token_invalid)
unfolding text_eq
refresh_together_example =
    refresh_together server (codes "a") (codes "b") (codes "c") (codes "b") (codes "c")
      (codes "access") 2000 metadata (session ∷ []) session user (codes "d") 4000 metadata plan_test
      other_plan_test refl refl (refl, tt) (refl, tt) refl

header_test : claims_of server.verify_access_token header ≡ some token_claims
unfolding claims_of bearer_token word after_word to_lower text_eq
header_test = refl

abbrev caller : Caller
caller = record { authorization = header; metadata = metadata; now = 3000 }

abbrev later_steps : List SessionStep
later_steps =
    user_step caller (show_session 1)
    ∷ token_step (ask_refresh (codes "a") (codes "b") 3000 metadata)
    ∷ []

logged_out_for_good_example :
    ((q : Caller) (d : Claims)
      → claims_of server.verify_access_token q.authorization ≡ some d
      → d.session_id ≡ 1
      → d.user_id ≡ 7
      → (authenticate_session server.verify_access_token q (
          take_steps server later_steps
            (serve_token server (ask_logout header 2000) (session ∷ [])).1)).0
        ≡ none)
    × ((token rotated : Text) (later : ℕ) (s : Session) (u : User) (h : Text)
        → plan_of server token rotated later (
            take_steps server later_steps
              (serve_token server (ask_logout header 2000) (session ∷ [])).1)
          ≡ rotate s u h
        → (s.id == 1 && s.user_id == 7) ≡ false)
logged_out_for_good_example =
    logged_out_for_good server header 2000 token_claims (session ∷ []) later_steps header_test

abbrev accounts : Accounts
accounts = record {
  challenges = [];
  users = user ∷ [];
  customers = [];
  sessions = session ∷ [];
  events = [];
}

abbrev owner : AuthenticatedSession
owner = record { context = SessionContext.personal; session_id = 1; user_id = 7 }

abbrev handoff_request : HandoffRequest
handoff_request = record {
  target_path = codes "/dashboard";
  request_origin = codes "https://site";
  token = codes "t";
  urls = record {
    separate_domain = true;
    panel_domain_ready = true;
    panel_origin = codes "https://panel";
  };
  admin = false;
  customer = true;
  now = 1000;
}

abbrev handoff_server : HandoffServer
handoff_server = record {
  sha256 = λ t. t;
  crypto = crypto;
  settings = settings;
  secrets = record { otp_hash_secret = some long_secret; jwt_refresh_secret = some long_secret };
}

create_test :
    (create_handoff (λ t. t) (some owner) handoff_request []).0
    ≡ handoff_created (codes "https://panel") (codes "t")
unfolding create_handoff insert_handoff text_eq starts_with
create_test = refl

abbrev handed : HandoffTables
handed =
    take_handoff_steps handoff_server (create_step (some owner) handoff_request ∷ []) ([], accounts)

consume_test :
    consume_of handoff_server (codes "t") (codes "https://panel") metadata fresh 2000 handed
    ≡ established (codes "/dashboard") 7 40
unfolding consume_handoff establish_for establish create_session insert_hashed hash_refresh_token
    require_otp_secret insert_session text_eq take_handoff_steps take_handoff_step create_handoff
    insert_handoff starts_with
consume_test = refl

handed_over_once_example :
    (2000 < 121000)
    × (codes "https://panel" ≡ codes "https://panel")
    × (codes "/dashboard" ≡ codes "/dashboard")
    × (◌≡◌ {A = ℕ} 7 7)
    × (consume_of handoff_server (codes "t") (codes "https://panel") metadata fresh 3000 (
          take_handoff_steps handoff_server
            (consume_step (codes "t") (codes "https://panel") metadata fresh 2000 ∷ [])
            handed)
        ≡ handoff_invalid)
unfolding starts_with
handed_over_once_example =
    handed_over_once handoff_server owner handoff_request ([], accounts) (codes "https://panel")
      (codes "t") [] [] (codes "https://panel") metadata fresh 2000 (codes "/dashboard") 7 40
      (codes "https://panel") metadata fresh 3000 create_test consume_test
