-- ===== src/Release.antt =====
-- src/services/applications/applicationReleaseSettingsService.ts: the commands that run after a
-- deployment.
pub mod Quoting
pub mod Words
mod Tests
use qubit_hosting_panel.Common.{
  ℕ, zero, suc, ◌+◌, ◌/◌, ◌%◌, Bool, true, false, not, ◌&&◌, Option, none, some, List, [], ◌∷◌,
  ◌++◌, ◌==◌, ltb, if◌then◌else◌,
}
use qubit_hosting_panel.Common.Text.{Text, codes, is_empty}

pub record ApplicationReleasePolicy : Type 0 where
  pub migrate_on_deploy : Bool
  pub migration_command : Option Text
  pub migration_timeout_seconds : ℕ
  pub run_seeder_on_deploy : Bool
  pub seeder_command : Option Text
  pub seeder_timeout_seconds : ℕ

-- `release` of the framework's definition, where it has one.
pub record ReleaseDefaults : Type 0 where
  pub migration_command : Option Text
  pub seeder_command : Option Text

-- A command that is neither missing nor empty.
abbrev pub is_command : Option Text → Bool
is_command none = false
is_command (some c) = not (is_empty c)

abbrev pub migration_of : Option ReleaseDefaults → Option Text
migration_of none = none
migration_of (some r) = r.migration_command

abbrev pub seeder_of : Option ReleaseDefaults → Option Text
seeder_of none = none
seeder_of (some r) = r.seeder_command

-- `defaultApplicationReleasePolicy`, of what the catalogue says of the framework.
unfoldable pub default_application_release_policy :
    Option ReleaseDefaults → ApplicationReleasePolicy
default_application_release_policy release = record {
  migrate_on_deploy = is_command (migration_of release);
  migration_command = migration_of release;
  migration_timeout_seconds = 900;
  run_seeder_on_deploy = false;
  seeder_command = seeder_of release;
  seeder_timeout_seconds = 900;
}

-- `value.replaceAll("'", String.raw`'"'"'`)`: a quote of the shell, closed, quoted, and opened again.
unfoldable pub escape_quotes : Text → Text
escape_quotes [] = []
escape_quotes (c ∷ s) =
    let rest = escape_quotes s in if c == 39 then 39 ∷ 34 ∷ 39 ∷ 34 ∷ 39 ∷ rest else c ∷ rest

-- `shellArgument`
unfoldable pub shell_argument : Text → Text
shell_argument value = 39 ∷ escape_quotes value ++ 39 ∷ []

-- A number as a template shows it: its decimal digits, before those in `acc`.
unfoldable pub decimal_digits : ℕ → ℕ → Text → Text
decimal_digits zero n acc = acc
decimal_digits (suc fuel) n acc =
    let shorter = decimal_digits fuel (n / 10) ((48 + n % 10) ∷ acc) in
    if ltb n 10 then (48 + n) ∷ acc else shorter

unfoldable pub decimal : ℕ → Text
decimal n = decimal_digits (suc n) n []

unfoldable pub bounded_command : ℕ → Text → Text
bounded_command seconds command =
    codes "timeout " ++ decimal seconds ++ codes "s sh -c " ++ shell_argument command

-- `if (enabled && command) commands.push(...)`
unfoldable pub release_step : Bool → ℕ → Option Text → List Text
release_step enabled seconds none = []
release_step enabled seconds (some command) =
    if enabled && not (is_empty command) then bounded_command seconds command ∷ [] else []

-- `commands.join(' && ')`
unfoldable pub join_commands : List Text → Text
join_commands [] = []
join_commands (c ∷ []) = c
join_commands (c ∷ d ∷ cs) = c ++ codes " && " ++ join_commands (d ∷ cs)

unfoldable pub release_commands : ApplicationReleasePolicy → List Text
release_commands p =
    release_step p.migrate_on_deploy p.migration_timeout_seconds p.migration_command
    ++ release_step p.run_seeder_on_deploy p.seeder_timeout_seconds p.seeder_command

-- `commands.length ? commands.join(' && ') : undefined`
unfoldable pub joined_or_none : List Text → Option Text
joined_or_none [] = none
joined_or_none (c ∷ cs) = some (join_commands (c ∷ cs))

unfoldable pub application_post_deployment_command : ApplicationReleasePolicy → Option Text
application_post_deployment_command p = joined_or_none (release_commands p)
