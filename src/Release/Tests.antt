-- ===== src/Release/Tests.antt =====
-- A command with quotes, and a timeout.
use qubit_hosting_panel.Common.{◌≡◌, refl, true, none, some, [], ◌∷◌, ◌++◌}
use qubit_hosting_panel.Common.Text.{Text, codes}
use qubit_hosting_panel.Release.{
  ApplicationReleasePolicy, default_application_release_policy, escape_quotes, shell_argument,
  decimal_digits, decimal, bounded_command, release_step, join_commands, release_commands,
  joined_or_none, application_post_deployment_command,
}
use qubit_hosting_panel.Release.Quoting.{value_from}
use qubit_hosting_panel.Release.Words.{
  read_words, prepend_word, command_words, read_words-application_post_deployment_command,
}

abbrev migrating : ApplicationReleasePolicy
migrating = record {
  migrate_on_deploy = true;
  migration_command = some (codes "a 'b'");
  migration_timeout_seconds = 900;
  run_seeder_on_deploy = true;
  seeder_command = some (codes "seed");
  seeder_timeout_seconds = 60;
}

command_test :
    application_post_deployment_command migrating
    ≡ some (codes "timeout 900s sh -c 'a '\"'\"'b'\"'\"'' && timeout 60s sh -c 'seed'")
unfolding application_post_deployment_command release_commands release_step bounded_command
    shell_argument escape_quotes decimal decimal_digits joined_or_none join_commands
command_test = refl

default_test :
    application_post_deployment_command (
      default_application_release_policy
        (some (record { migration_command = none; seeder_command = some (codes "seed") })))
    ≡ none
unfolding application_post_deployment_command release_commands release_step joined_or_none
    default_application_release_policy
default_test = refl

read_words-application_post_deployment_command_example :
    (hook : Text) × (application_post_deployment_command migrating ≡ some hook)
    × (read_words 11 (hook ++ 32 ∷ [])
        ≡ command_words 900
            (codes "a 'b'")
            (prepend_word (codes "&&") (command_words 60 (codes "seed") (some ([], [])))))
    × (value_from 0 (decimal 900) ≡ 900)
    × (value_from 0 (decimal 60) ≡ 60)
read_words-application_post_deployment_command_example =
    read_words-application_post_deployment_command migrating (codes "a 'b'") (codes "seed") refl
      refl refl refl
