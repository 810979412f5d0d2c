-- ===== src/Authentication/HandoffSteps.antt =====
-- src/controllers/AuthController.ts: requests about handoffs, one after the other.
use qubit_hosting_panel.Common.{ℕ, Option, List, [], ◌∷◌}
use qubit_hosting_panel.Common.Text.{Text}
use qubit_hosting_panel.Sessions.{AuthenticatedSession, RequestMetadata}
use qubit_hosting_panel.Authentication.Model.{Accounts, OtpSettings, Crypto, AuthenticationHandoff}
use qubit_hosting_panel.Authentication.Codes.{Secrets, Fresh}
use qubit_hosting_panel.Authentication.Handoffs.{
  HandoffAnswer, HandoffRequest, create_handoff, consume_handoff,
}

-- What the server is asked about handoffs, and the values that it draws.
pub data HandoffStep : Type 0 where
  create_step : Option AuthenticatedSession → HandoffRequest → HandoffStep
  consume_step : Text → Text → RequestMetadata → Fresh → ℕ → HandoffStep

-- The functions and settings of the server.
pub record HandoffServer : Type 0 where
  pub sha256 : Text → Text
  pub crypto : Crypto
  pub settings : OtpSettings
  pub secrets : Secrets

abbrev pub HandoffTables : Type 0
HandoffTables = List AuthenticationHandoff × Accounts

unfoldable pub take_handoff_step : HandoffServer → HandoffStep → HandoffTables → HandoffTables
take_handoff_step w (create_step a r) (rows, acc) = ((create_handoff w.sha256 a r rows).1, acc)
take_handoff_step w (consume_step token origin md fresh now) (rows, acc) =
    let (answer, rows', acc') =
      consume_handoff w.crypto w.settings w.secrets w.sha256 token origin md fresh now rows acc in
    (rows', acc')

unfoldable pub take_handoff_steps : HandoffServer → List HandoffStep → HandoffTables → HandoffTables
take_handoff_steps w [] s = s
take_handoff_steps w (x ∷ xs) s = take_handoff_steps w xs (take_handoff_step w x s)

abbrev pub consume_of :
    HandoffServer → Text → Text → RequestMetadata → Fresh → ℕ → HandoffTables → HandoffAnswer
consume_of w token origin md fresh now s =
    (consume_handoff w.crypto w.settings w.secrets w.sha256 token origin md fresh now s.0 s.1).0
