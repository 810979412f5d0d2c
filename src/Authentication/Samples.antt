-- ===== src/Authentication/Samples.antt =====
-- A user, and the settings and fresh values of a server.
use qubit_hosting_panel.Common.{false, none, some}
use qubit_hosting_panel.Common.Text.{Text, codes}
use qubit_hosting_panel.Sessions.{RequestMetadata}
use qubit_hosting_panel.Authentication.Model.{UserStatus, User, OtpSettings}
use qubit_hosting_panel.Authentication.Codes.{Secrets, Fresh}

abbrev pub settings : OtpSettings
settings = record {
  otp_ttl_minutes = 10;
  otp_resend_cooldown_seconds = 60;
  otp_max_attempts = 5;
  refresh_token_ttl_days = 30;
}

abbrev pub long_secret : Text
long_secret = codes "0123456789abcdef0123456789abcdef"

abbrev pub secrets : Secrets
secrets = record { otp_hash_secret = some long_secret; jwt_refresh_secret = some long_secret }

abbrev pub user : User
user = record {
  id = 7;
  country_code = codes "+91";
  mobile = codes "98";
  status = UserStatus.active;
  token_version = 1;
  mobile_verified_at = some 5;
  deleted = false;
}

abbrev pub metadata : RequestMetadata
metadata = record { ip_address = none; user_agent = none }

abbrev pub fresh : Fresh
fresh = record {
  challenge_id = 1;
  user_id = 8;
  customer_id = 70;
  session_id = 40;
  otp_code = codes "z";
  otp_salt = codes "s";
  refresh_token = codes "r";
}
