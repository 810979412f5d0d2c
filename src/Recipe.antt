-- ===== src/Recipe.antt =====
-- src/services/applications/deploymentRecipeService.ts: the contract of a deployment and its checks.
pub mod Checks
mod Tests
use qubit_hosting_panel.Common.{
  ℕ, Bool, true, false, not, ◌&&◌, ◌||◌, Option, none, some, List, [], ◌∷◌, ◌++◌, leb, or_else,
  coalesce, if◌then◌else◌,
}
use qubit_hosting_panel.Common.Text.{Text, codes, text_eq, is_empty}
use qubit_hosting_panel.Release.{decimal, is_command}

pub data RuntimeLanguage : Type 0 where
  node php python ruby static : RuntimeLanguage

pub data DeploymentServiceType : Type 0 where
  cms static web : DeploymentServiceType

pub data DeploymentCheckStatus : Type 0 where
  error pass warning : DeploymentCheckStatus

pub record DeploymentCheck : Type 0 where
  pub code : Text
  pub message : Text
  pub status : DeploymentCheckStatus

-- What the recipe reads of the catalogue's entry.
pub record FrameworkDefinition : Type 0 where
  pub label : Text
  pub output_directory : Option Text

pub record DeploymentContractInput : Type 0 where
  pub build_command : Option Text
  pub framework : Option Text
  pub install_command : Option Text
  pub port : ℕ
  pub project_directory : Text
  pub publish_directory : Option Text
  pub stack : RuntimeLanguage
  pub start_command : Option Text

pub record DeploymentContract : Type 0 where
  pub build_command : Option Text
  pub checks : List DeploymentCheck
  pub framework : Option Text
  pub health_check_path : Text
  pub install_command : Option Text
  pub port : ℕ
  pub project_directory : Text
  pub publish_directory : Option Text
  pub recipe_version : Text
  pub service_type : DeploymentServiceType
  pub start_command : Option Text

abbrev pub stack_name : RuntimeLanguage → Text
stack_name RuntimeLanguage.node = codes "node"
stack_name RuntimeLanguage.php = codes "php"
stack_name RuntimeLanguage.python = codes "python"
stack_name RuntimeLanguage.ruby = codes "ruby"
stack_name RuntimeLanguage.static = codes "static"

-- `framework === name`, for a framework that may be missing.
abbrev pub is_named : Text → Option Text → Bool
is_named name none = false
is_named name (some framework) = text_eq framework name

-- `FRAMEWORK_START_COMMANDS[framework]`
unfoldable pub framework_start_command : Option Text → Option Text
framework_start_command framework =
    if is_named (codes "laravel") framework
    then some (codes "php artisan serve --host=0.0.0.0 --port=$PORT")
    else (if is_named (codes "wordpress") framework
        then some (codes "php -S 0.0.0.0:$PORT")
        else none)

-- `buildSafeInstallCommand`
unfoldable pub build_safe_install_command : Option Text → Option Text → Option Text
build_safe_install_command install build =
    if is_command install && is_command build
    then (if is_named (codes "npm ci") install
        then some (codes "npm ci --include=dev || npm install --include=dev")
        else (if is_named (codes "npm install") install
            then some (codes "npm install --include=dev")
            else install))
    else install

-- `a || b || undefined`, where an empty text counts as missing.
abbrev pub first_command : Option Text → Option Text → Option Text
first_command a b = if is_command a then a else (if is_command b then b else none)

unfoldable pub service_type_of : DeploymentContractInput → DeploymentServiceType
service_type_of i = elim i.stack [
  | RuntimeLanguage.static ↦ DeploymentServiceType.static
  | _ ↦
      if is_named (codes "wordpress") i.framework
      then DeploymentServiceType.cms
      else DeploymentServiceType.web
]

abbrev pub is_static : DeploymentServiceType → Bool
is_static DeploymentServiceType.static = true
is_static _ = false

abbrev pub is_web : DeploymentServiceType → Bool
is_web DeploymentServiceType.web = true
is_web _ = false

abbrev pub is_php : RuntimeLanguage → Bool
is_php RuntimeLanguage.php = true
is_php _ = false

unfoldable pub start_command_of : DeploymentContractInput → Option Text
start_command_of i = coalesce i.start_command (framework_start_command i.framework)

unfoldable pub publish_directory_of :
    Option FrameworkDefinition → DeploymentContractInput → Option Text
publish_directory_of none i = first_command i.publish_directory none
publish_directory_of (some f) i = first_command i.publish_directory f.output_directory

unfoldable pub framework_check :
    Option FrameworkDefinition → DeploymentContractInput → DeploymentCheck
framework_check none i = record {
  code = codes "framework-runtime";
  message = codes "Generic " ++ stack_name i.stack ++ codes " deployment uses advanced defaults.";
  status = DeploymentCheckStatus.warning;
}
framework_check (some f) i = record {
  code = codes "framework-runtime";
  message = f.label ++ codes " matches the " ++ stack_name i.stack ++ codes " runtime.";
  status = DeploymentCheckStatus.pass;
}

unfoldable pub directory_check : DeploymentContractInput → DeploymentCheck
directory_check i = record {
  code = codes "project-directory";
  message =
      if text_eq i.project_directory (codes "/")
      then codes "Repository root selected."
      else codes "Project directory is " ++ i.project_directory ++ codes ".";
  status =
      if is_empty i.project_directory
      then DeploymentCheckStatus.error
      else DeploymentCheckStatus.pass;
}

unfoldable pub static_check : Option Text → DeploymentCheck
static_check directory = record {
  code = codes "static-output";
  message =
      if is_command directory
      then codes "Static output will be served from " ++ or_else directory [] ++ codes "."
      else codes "Choose the directory produced by the build.";
  status = if is_command directory then DeploymentCheckStatus.pass else DeploymentCheckStatus.error;
}

unfoldable pub start_check : Option Text → Option Text → DeploymentCheck
start_check framework start = record {
  code = codes "start-command";
  message =
      if is_command start
      then codes "Start command is " ++ or_else start [] ++ codes "."
      else codes "A start command could not be proven from the repository.";
  status =
      if is_command start
      then DeploymentCheckStatus.pass
      else (if is_command framework
          then DeploymentCheckStatus.error
          else DeploymentCheckStatus.warning);
}

unfoldable pub port_check : ℕ → DeploymentCheck
port_check port = record {
  code = codes "internal-port";
  message = codes "The application must listen on 0.0.0.0:" ++ decimal port ++ codes ".";
  status =
      if leb 1 port && leb port 65535
      then DeploymentCheckStatus.pass
      else DeploymentCheckStatus.error;
}

abbrev pub only_if : Bool → DeploymentCheck → List DeploymentCheck
only_if true c = c ∷ []
only_if false c = []

unfoldable pub contract_checks :
    Option FrameworkDefinition → DeploymentContractInput → List DeploymentCheck
contract_checks f i =
    framework_check f i
      ∷ directory_check i
      ∷ only_if (is_static (service_type_of i)) (static_check (publish_directory_of f i))
    ++ only_if (is_web (service_type_of i) && not (is_php i.stack))
        (start_check i.framework (start_command_of i))
    ++ port_check i.port ∷ []

-- `resolveDeploymentContract`, of the catalogue's entry for the framework.
unfoldable pub resolve_deployment_contract :
    Option FrameworkDefinition → DeploymentContractInput → DeploymentContract
resolve_deployment_contract f i = record {
  build_command = i.build_command;
  checks = contract_checks f i;
  framework = i.framework;
  health_check_path = if is_named (codes "laravel") i.framework then codes "/up" else codes "/";
  install_command = build_safe_install_command i.install_command i.build_command;
  port = i.port;
  project_directory = i.project_directory;
  publish_directory = publish_directory_of f i;
  recipe_version = codes "2026.08.2";
  service_type = service_type_of i;
  start_command = start_command_of i;
}
