-- ===== src/Environment/Tests.antt =====
-- The key of a connection variable.
use qubit_hosting_panel.Common.{◌≡◌, refl, true}
use qubit_hosting_panel.Common.Text.{codes, text_eq, trim}
use qubit_hosting_panel.Environment.{upper_ascii, is_database_connection_environment_key}

key_test : is_database_connection_environment_key (codes " db_url ") ≡ true
unfolding is_database_connection_environment_key upper_ascii text_eq trim
key_test = refl
