-- ===== src/Runner/Pipelines/Common.antt =====
-- What the pipelines of api/gem_api/services/runner.py share.
use gem_gdc_emulation_enviro.Prelude.{
  Text, codes, List, [], ◌∷◌, Option, Bool, is_empty, if◌then◌else◌, or_else,
}
use gem_gdc_emulation_enviro.Prelude.Strings.{lower, is_member}
use gem_gdc_emulation_enviro.Prelude.Dict.{Dict}
use gem_gdc_emulation_enviro.Exceptions.{Outcome, ◌&◌}
use gem_gdc_emulation_enviro.Config.{Settings}
use gem_gdc_emulation_enviro.Json.{Fields, text, obj, field, dumps}
use gem_gdc_emulation_enviro.Operations.World.{Environment}
use gem_gdc_emulation_enviro.Runner.Context.{GcpContext}
use gem_gdc_emulation_enviro.Runner.Machine.{Command, Action, pure, ◌>>◌}
use gem_gdc_emulation_enviro.Runner.Execute.{execute_command, mock_step}

-- What a pipeline reads from outside: os.environ with GEM_MOCK_RUNNER, the settings, and
-- get_abm_version, which reads a YAML file and may raise.
pub record Setup : Type 0 where
  pub readings : Environment
  pub settings : Settings
  pub environ : Dict Text
  pub mock_runner : Option Text
  pub get_abm_version : Text → Outcome (Option Text)

unfoldable pub is_mock_enabled : Setup → Bool
unfolding lower is_member
is_mock_enabled s =
    is_member (lower (or_else s.mock_runner (codes "false")))
      (codes "true" ∷ codes "1" ∷ codes "yes" ∷ [])

-- A call of _execute_command, and a call of _mock_step.
pub record Step : Type 0 where
  pub command : Command
  pub step_name : Text
  pub step_message : Text

pub record MockStep : Type 0 where
  pub step_name : Text
  pub step_message : Text
  pub sample_logs : List Text

module _ (env : Environment) (operation_id : Text) where
  unfoldable pub run_steps : List Step → Action (Unit {0})
  run_steps [] = pure tt
  run_steps (s ∷ steps) =
      execute_command env operation_id s.command s.step_name s.step_message >> run_steps steps

  unfoldable pub run_mock_steps : List MockStep → Action (Unit {0})
  run_mock_steps [] = pure tt
  run_mock_steps (s ∷ steps) =
      mock_step env operation_id s.step_name s.step_message s.sample_logs >> run_mock_steps steps

-- repo_root / "terraform" / name, and repo_root / "ansible"
abbrev pub terraform_dir : Setup → Text → Text
terraform_dir s name = s.settings.repo_root & codes "/terraform/" & name

abbrev pub ansible_dir : Setup → Text
ansible_dir s = s.settings.repo_root & codes "/ansible"

-- -var=name=value
abbrev pub tf_var : Text → Text → Text
tf_var name value = codes "-var=" & name & codes "=" & value

-- terraform, the subcommand and the two flags of every apply and destroy
abbrev pub terraform : Text → List Text → List Text
terraform subcommand vars =
    codes "terraform" ∷ subcommand ∷ codes "-input=false" ∷ codes "-auto-approve" ∷ vars

-- `if value: cmd.append(...)`
abbrev pub if_given : Text → Text → List Text
if_given name value = if is_empty value then [] else tf_var name value ∷ []

-- The project, the zone and the region, which every apply and destroy sets.
abbrev pub location_vars : GcpContext → List Text → List Text
location_vars c more =
    tf_var (codes "project_id") c.project_id
    ∷ tf_var (codes "zone") c.zone
    ∷ tf_var (codes "region") c.region
    ∷ more

abbrev pub playbook : Text → Fields → List Text
playbook name extra_vars =
    codes "ansible-playbook"
    ∷ codes "-i"
    ∷ codes "inventory.sh"
    ∷ name
    ∷ codes "-e"
    ∷ dumps (obj extra_vars)
    ∷ []

abbrev pub location_fields : GcpContext → Fields → Fields
location_fields c more =
    field (codes "project_id") (text c.project_id)
      (field (codes "zone") (text c.zone) (field (codes "region") (text c.region) more))
