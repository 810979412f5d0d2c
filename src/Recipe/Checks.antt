-- ===== src/Recipe/Checks.antt =====
-- Which contracts are refused.
use qubit_hosting_panel.Common.{
  ℕ, ◌≡◌, refl, Bool, true, false, not, ◌&&◌, ◌||◌, Option, none, some, List, [], ◌∷◌, ◌++◌, arith,
  any, leb,
}
use qubit_hosting_panel.Common.Text.{Text, is_empty}
use qubit_hosting_panel.Release.{is_command}
use qubit_hosting_panel.Recipe.{
  DeploymentCheckStatus, DeploymentCheck, FrameworkDefinition, DeploymentContractInput, is_static,
  is_web, is_php, service_type_of, start_command_of, publish_directory_of, framework_check,
  directory_check, static_check, start_check, port_check, only_if, contract_checks,
  resolve_deployment_contract,
}

abbrev pub is_error : DeploymentCheck → Bool
is_error c = elim c.status [ DeploymentCheckStatus.error ↦ true | _ ↦ false ]

any-append :
    (xs ys : List DeploymentCheck) → any is_error (xs ++ ys) ≡ (any is_error xs || any is_error ys)
any-append [] ys = refl
any-append (x ∷ xs) ys = ground (arith, any-append xs ys)

framework_check_lem :
    (f : Option FrameworkDefinition) (i : DeploymentContractInput)
    → is_error (framework_check f i) ≡ false
unfolding framework_check
framework_check_lem none i = refl
framework_check_lem (some f) i = refl

only_if_lem : (b : Bool) (c : DeploymentCheck) → any is_error (only_if b c) ≡ (b && is_error c)
only_if_lem true c = ground arith
only_if_lem false c = refl

directory_check_lem :
    (i : DeploymentContractInput) → is_error (directory_check i) ≡ is_empty i.project_directory
unfolding directory_check
directory_check_lem i = ground arith

static_check_lem : (d : Option Text) → is_error (static_check d) ≡ not (is_command d)
unfolding static_check
static_check_lem d = ground arith

start_check_lem :
    (f s : Option Text) → is_error (start_check f s) ≡ (not (is_command s) && is_command f)
unfolding start_check
start_check_lem f s = ground arith

port_check_lem : (n : ℕ) → is_error (port_check n) ≡ not (leb 1 n && leb n 65535)
unfolding port_check
port_check_lem n = ground arith

-- A contract has an error exactly when the project directory is empty, the port is not a port, a static
-- site has no directory to publish, or a web application with a known framework, other than one for
-- PHP, has no command to start.
pub resolve_deployment_contract_lem :
    (f : Option FrameworkDefinition) (i : DeploymentContractInput)
    → any is_error (resolve_deployment_contract f i).checks ≡ (
        is_empty i.project_directory
        || (is_static (service_type_of i) && not (is_command (publish_directory_of f i)))
        || ((is_web (service_type_of i) && not (is_php i.stack))
            && (not (is_command (start_command_of i)) && is_command i.framework))
        || not (leb 1 i.port && leb i.port 65535))
unfolding resolve_deployment_contract contract_checks
resolve_deployment_contract_lem f i =
    let statics =
      only_if (is_static (service_type_of i)) (static_check (publish_directory_of f i)) in
    let starts =
      only_if (is_web (service_type_of i) && not (is_php i.stack))
        (start_check i.framework (start_command_of i)) in
    ground (
      arith,
      framework_check_lem f i,
      directory_check_lem i,
      any-append statics (starts ++ port_check i.port ∷ []),
      any-append starts (port_check i.port ∷ []),
      only_if_lem (is_static (service_type_of i)) (static_check (publish_directory_of f i)),
      only_if_lem (is_web (service_type_of i) && not (is_php i.stack))
          (start_check i.framework (start_command_of i)),
      static_check_lem (publish_directory_of f i),
      start_check_lem i.framework (start_command_of i),
      port_check_lem i.port,
    )
