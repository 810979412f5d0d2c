-- ===== src/Recipe/Tests.antt =====
-- A static site without an output directory.
use qubit_hosting_panel.Common.{◌≡◌, refl, none, some}
use qubit_hosting_panel.Common.Text.{codes, text_eq}
use qubit_hosting_panel.Recipe.{
  RuntimeLanguage, DeploymentContractInput, build_safe_install_command, resolve_deployment_contract,
}

abbrev site : DeploymentContractInput
site = record {
  build_command = some (codes "npm run build");
  framework = none;
  install_command = some (codes "npm ci");
  port = 80;
  project_directory = codes "/";
  publish_directory = some (codes "");
  stack = RuntimeLanguage.static;
  start_command = none;
}

install_test :
    (resolve_deployment_contract none site).install_command
    ≡ some (codes "npm ci --include=dev || npm install --include=dev")
unfolding resolve_deployment_contract build_safe_install_command text_eq
install_test = refl
