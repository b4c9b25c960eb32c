-- ===== src/Types.antt =====
-- pkg/types/config.go, and the untyped values that YAML decodes to.
use attacknet.Base.{ℕ, Bool, List, Option, none, some, String, if◌then◌else◌}
use attacknet.Base.Text.{str_eq}
use attacknet.Base.Int.{ℤ}
use attacknet.Golang.Duration.{Duration}

-- interface{} and map[string]interface{}
mutual
  pub data Value : Type 0 where
    null : Value
    boolean : Bool → Value
    number : ℤ → Value
    text : String → Value
    sequence : Items → Value
    table : Fields → Value

  pub data Items : Type 0 where
    done : Items
    item : Value → Items → Items

  pub data Fields : Type 0 where
    end : Fields
    field : String → Value → Fields → Fields

-- m[key]
unfoldable pub value_at : String → Fields → Option Value
value_at k end = none
value_at k (field j v m) = if str_eq j k then some v else value_at k m

-- v.(string)
abbrev pub as_text : Option Value → Option String
as_text (some (text s)) = some s
as_text _ = none

-- v.(map[string]interface{})
abbrev pub as_table : Option Value → Option Fields
as_table (some (table m)) = some m
as_table _ = none

pub record AttacknetConfig : Type 0 where
  pub grafana_pod_name : String
  pub grafana_pod_port : String
  pub allow_post_fault_inspection : Bool
  pub wait_before_injection_seconds : ℕ
  pub reuse_devnet_between_runs : Bool
  pub existing_devnet_namespace : String

pub record HarnessConfig : Type 0 where
  pub network_type : String
  pub network_package : String
  pub network_config_path : String

pub record HarnessConfigParsed : Type 0 where
  pub network_type : String
  pub network_package : String
  pub network_config : String

pub record HealthCheckConfig : Type 0 where
  pub enable_checks : Bool
  pub grace_period : Option Duration

-- `invalid_step_type` is the empty text; `other_step` is a text that is none of the constants.
pub data StepType : Type 0 where
  invalid_step_type inject_fault wait_for_fault_completion wait_for_duration : StepType
  other_step : String → StepType

pub record PlanStep : Type 0 where
  pub step_type : StepType
  pub step_description : String
  pub spec : Fields

pub record SuiteTest : Type 0 where
  pub test_name : String
  pub plan_steps : List PlanStep
  pub health_config : HealthCheckConfig

pub record Config : Type 0 where
  pub attacknet_config : AttacknetConfig
  pub harness_config : HarnessConfig
  pub tests : List SuiteTest

pub record ConfigParsed : Type 0 where
  pub attacknet_config : AttacknetConfig
  pub harness_config : HarnessConfigParsed
  pub tests : List SuiteTest
