-- ===== src/Authentication/Handoffs.antt =====
-- src/controllers/AuthController.ts, createHandoff and consumeHandoff, and
-- src/services/authorization/customerDashboardAccessService.ts: a session is handed to another origin.
use qubit_hosting_panel.Common.{
  ℕ, ◌+◌, Bool, false, not, ◌&&◌, ◌||◌, Option, none, some, List, [], ◌∷◌, ◌++◌, ◌==◌, ltb, any,
  is_some, if◌then◌else◌,
}
use qubit_hosting_panel.Common.Text.{Text, codes, text_eq, starts_with}
use qubit_hosting_panel.Common.Table.{find, update_where}
use qubit_hosting_panel.Sessions.{AuthenticatedSession, RequestMetadata}
use qubit_hosting_panel.Authentication.Model.{
  User, Customer, Accounts, OtpSettings, Crypto, AuthenticationHandoff,
}
use qubit_hosting_panel.Authentication.Codes.{Secrets, Fresh, create_session}
use qubit_hosting_panel.Authentication.Verification.{is_active_user}

pub record CustomerCheckout : Type 0 where
  pub id : ℕ
  pub customer_id : ℕ
  pub deleted : Bool

pub record PaymentAttempt : Type 0 where
  pub checkout_id : ℕ
  pub deleted : Bool

-- The inner joins of `hasCustomerDashboardAccess`: some customer, checkout and attempt go together.
unfoldable pub has_customer_dashboard_access :
    ℕ → List Customer → List CustomerCheckout → List PaymentAttempt → Bool
has_customer_dashboard_access user customers checkouts attempts =
    any
      (λ c.
        c.user_id == user
        && not c.deleted
        && any
            (λ k.
              k.customer_id == c.id
              && not k.deleted
              && any (λ a. a.checkout_id == k.id && not a.deleted) attempts)
            checkouts)
      customers

-- The address of the panel: its own domain, whether it is verified, and its origin.
pub record PanelUrls : Type 0 where
  pub separate_domain : Bool
  pub panel_domain_ready : Bool
  pub panel_origin : Text

pub data HandoffAnswer : Type 0 where
  no_separate_domain admin_not_permitted customer_not_permitted : HandoffAnswer
  handoff_created : Text → Text → HandoffAnswer
  handoff_invalid account_inactive : HandoffAnswer
  established : Text → ℕ → ℕ → HandoffAnswer
  handoff_refused : HandoffAnswer

-- What a request to hand a session over depends on.
pub record HandoffRequest : Type 0 where
  pub target_path : Text
  pub request_origin : Text
  pub token : Text
  pub urls : PanelUrls
  pub admin : Bool
  pub customer : Bool
  pub now : ℕ

abbrev pub is_database_target : Text → Bool
is_database_target path = starts_with (codes "/database/") path

abbrev pub target_origin_of : HandoffRequest → Text
target_origin_of r =
    if is_database_target r.target_path then r.request_origin else r.urls.panel_origin

module _ (sha256 : Text → Text) where
  abbrev pub new_handoff : AuthenticatedSession → HandoffRequest → AuthenticationHandoff
  new_handoff a r = record {
    user_id = a.user_id;
    source_session_id = a.session_id;
    token_hash = sha256 r.token;
    target_origin = target_origin_of r;
    target_path = r.target_path;
    expires_at = r.now + 120000;
    consumed_at = none;
    deleted = false;
  }

  -- The insert meets the unique index on the hash.
  unfoldable pub insert_handoff :
      AuthenticatedSession
      → HandoffRequest
      → List AuthenticationHandoff
      → HandoffAnswer × List AuthenticationHandoff
  insert_handoff a r rows =
      if any (λ h. text_eq h.token_hash (sha256 r.token)) rows
      then (handoff_refused, rows)
      else (handoff_created (target_origin_of r) r.token, rows ++ new_handoff a r ∷ [])

  -- `createHandoff`, for the session that authenticateSession gave.
  unfoldable pub create_handoff :
      Option AuthenticatedSession
      → HandoffRequest
      → List AuthenticationHandoff
      → HandoffAnswer × List AuthenticationHandoff
  create_handoff none r rows = (handoff_refused, rows)
  create_handoff (some a) r rows =
      if not (is_database_target r.target_path)
        && not (r.urls.separate_domain && r.urls.panel_domain_ready)
      then (no_separate_domain, rows)
      else (if text_eq r.target_path (codes "/admin/overview") && not r.admin
          then (admin_not_permitted, rows)
          else (if (text_eq r.target_path (codes "/dashboard") || is_database_target r.target_path)
                && not r.customer
              then (customer_not_permitted, rows)
              else insert_handoff a r rows))

abbrev pub is_consumable_handoff : Text → Text → ℕ → AuthenticationHandoff → Bool
is_consumable_handoff hash origin now h =
    text_eq h.token_hash hash
    && text_eq h.target_origin origin
    && not (is_some h.consumed_at)
    && not h.deleted
    && ltb now h.expires_at

abbrev pub set_consumed : ℕ → AuthenticationHandoff → AuthenticationHandoff
set_consumed now h = record h { consumed_at = some now }

abbrev pub established_answer :
    AuthenticationHandoff → User → Fresh → Accounts → Option Accounts → HandoffAnswer × Accounts
established_answer h u fresh before none = (handoff_refused, before)
established_answer h u fresh before (some acc) =
    (established h.target_path u.id fresh.session_id, acc)

module _ (k : Crypto) (env : OtpSettings) (secrets : Secrets) where
  unfoldable pub establish :
      AuthenticationHandoff
      → RequestMetadata
      → Fresh
      → ℕ
      → Option User
      → Accounts
      → HandoffAnswer × Accounts
  establish h md fresh now none acc = (account_inactive, acc)
  establish h md fresh now (some u) acc =
      established_answer h u fresh acc
        (create_session k env secrets md now fresh u.id u.token_version acc)

  unfoldable pub establish_for :
      RequestMetadata
      → Fresh
      → ℕ
      → Option AuthenticationHandoff
      → Accounts
      → HandoffAnswer × Accounts
  establish_for md fresh now none acc = (handoff_invalid, acc)
  establish_for md fresh now (some h) acc =
      establish h md fresh now (find (is_active_user h.user_id) acc.users) acc

  -- `consumeHandoff`: one update that consumes and returns the row, then the session.
  unfoldable pub consume_handoff :
      (Text → Text)
      → Text
      → Text
      → RequestMetadata
      → Fresh
      → ℕ
      → List AuthenticationHandoff
      → Accounts
      → HandoffAnswer × List AuthenticationHandoff × Accounts
  consume_handoff sha256 token origin md fresh now rows acc =
      let p = is_consumable_handoff (sha256 token) origin now in
      let (answer, acc') = establish_for md fresh now (find p rows) acc in
      (answer, update_where p (set_consumed now) rows, acc')
