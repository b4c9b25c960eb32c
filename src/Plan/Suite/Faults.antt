-- ===== src/Plan/Suite/Faults.antt =====
-- pkg/plan/suite/faults.go: the fault specifications and the plan steps that inject them.
use attacknet.Base.{
  ℕ, Option, none, some, List, [], ◌∷◌, get_elem?, last?, if◌then◌else◌, String, Outcome, ok, err,
  failure, or_fail, or_crash, index_out_of_range, ◌>>=◌,
}
use attacknet.Base.Int.{ℤ}
use attacknet.Base.Dict.{Dict}
use attacknet.Base.Text.{◌++◌ as append, str_eq, split}
use attacknet.Golang.Float.{Float}
use attacknet.Golang.Decimal.{itoa_ℤ}
use attacknet.Golang.Duration.{Duration}
use attacknet.Types.{Fields, PlanStep, inject_fault}

pub record ChaosExpressionSelector : Type 0 where
  pub key : String
  pub operator : String
  pub values : List String

pub record Selector : Type 0 where
  pub label_selectors : Dict String
  pub expression_selectors : List ChaosExpressionSelector

pub record TimeChaosSpec : Type 0 where
  pub selector : Selector
  pub mode : String
  pub action : String
  pub time_offset : String
  pub duration : String

pub record PodChaosSpec : Type 0 where
  pub selector : Selector
  pub mode : String
  pub duration : String
  pub action : String

pub record IoChaosSpec : Type 0 where
  pub selector : Selector
  pub mode : String
  pub action : String
  pub volume_path : String
  pub delay : Option Duration
  pub percent : ℤ
  pub duration : Option Duration

pub record NetworkDelaySpec : Type 0 where
  pub latency : Option Duration
  pub correlation : String
  pub jitter : Option Duration

pub record NetworkLossSpec : Type 0 where
  pub loss : String
  pub correlation : String

pub record NetworkDuplicateSpec : Type 0 where
  pub duplicate : Float
  pub correlation : String

pub record NetworkCorruptSpec : Type 0 where
  pub corrupt : Float
  pub correlation : String

pub record NetworkBandwidthSpec : Type 0 where
  pub rate : String
  pub limit : ℕ
  pub buffer : ℕ
  pub peak_rate : Option ℕ

pub record NetworkChaosSpec : Type 0 where
  pub selector : Selector
  pub mode : String
  pub action : String
  pub duration : Option Duration
  pub delay : Option NetworkDelaySpec
  pub loss : Option NetworkLossSpec
  pub duplicate : Option NetworkDuplicateSpec
  pub corrupt : Option NetworkCorruptSpec
  pub bandwidth : Option NetworkBandwidthSpec
  pub direction : String

-- The structs XFault and XWrapper: a spec with its kind and version.
pub record Fault {ℓ} (S : Type ℓ) : Type ℓ where
  pub spec : S
  pub kind : String
  pub api_version : String

pub data FaultWrapper : Type 0 where
  time_chaos : Fault TimeChaosSpec → FaultWrapper
  pod_chaos : Fault PodChaosSpec → FaultWrapper
  io_chaos : Fault IoChaosSpec → FaultWrapper
  network_chaos : Fault NetworkChaosSpec → FaultWrapper

-- What the code calls of yaml.v3: Marshal of a fault, and Unmarshal into an untyped map; `none` is
-- an error.
pub record Yaml : Type 0 where
  pub marshal : FaultWrapper → Option String
  pub unmarshal : String → Option Fields

abbrev pub chaos_version : String
chaos_version = "chaos-mesh.org/v1alpha1"

abbrev pub selecting : List ChaosExpressionSelector → Selector
selecting selectors = record { label_selectors = []; expression_selectors = selectors }

-- getVolumePathForIOFault
unfoldable pub volume_path_for_io_fault : String → Outcome String
volume_path_for_io_fault pod_name = do
  let parts = split b'-' pod_name
  first ← or_crash (get_elem? parts 0) index_out_of_range
  final ← or_crash (last? parts) index_out_of_range
  let node_type = if str_eq first "el" then "execution" else "consensus"
  if str_eq final "validator"
      then err (failure "cannot create an i/o latency fault on a validator sidecar pod")
      else (do
        client_name ← or_crash (get_elem? parts 2) index_out_of_range
        ok (append "/data/" (append client_name (append "/" (append node_type "-data")))))

-- The fault of buildIOLatencyFault for one pod: the selector is the whole one.
unfoldable pub io_latency_wrapper :
    ChaosExpressionSelector → Duration → ℤ → Duration → String → FaultWrapper
io_latency_wrapper selector delay percent duration volume_path = io_chaos (record {
  spec = record {
    selector = selecting (selector ∷ []);
    mode = "all";
    action = "latency";
    volume_path = volume_path;
    delay = some delay;
    percent = percent;
    duration = some duration;
  };
  kind = "IOChaos";
  api_version = chaos_version;
})

-- A network fault with only the given action set.
unfoldable pub network_fault :
    String
    → List ChaosExpressionSelector
    → Duration
    → Option NetworkDelaySpec
    → Option NetworkLossSpec
    → String
    → FaultWrapper
network_fault action selectors duration delay loss direction = network_chaos (record {
  spec = record {
    selector = selecting selectors;
    mode = "all";
    action = action;
    duration = some duration;
    delay = delay;
    loss = loss;
    duplicate = none;
    corrupt = none;
    bandwidth = none;
    direction = direction;
  };
  kind = "NetworkChaos";
  api_version = chaos_version;
})

module _ (yaml : Yaml) where
  -- convertFaultSpecToMap and convertFaultSpecToMapSpecial
  unfoldable pub convert_fault_spec_to_map : FaultWrapper → Outcome Fields
  convert_fault_spec_to_map s = do
    bs ← or_fail (yaml.marshal s) "intermediate yaml marshalling failed"
    or_fail (yaml.unmarshal bs) "unable to deserialize intermediate yaml"

  -- convertFaultSpecToInjectStep and convertFaultSpecToInjectStepSpecial
  unfoldable pub convert_fault_spec_to_inject_step : String → FaultWrapper → Outcome PlanStep
  unfolding convert_fault_spec_to_map
  convert_fault_spec_to_inject_step description s = do
    fault_spec_map ← convert_fault_spec_to_map s
    ok (record { step_type = inject_fault; step_description = description; spec = fault_spec_map })

  unfoldable pub build_clock_skew_fault :
      String → String → String → List ChaosExpressionSelector → Outcome PlanStep
  unfolding convert_fault_spec_to_inject_step
  build_clock_skew_fault description time_offset duration selectors =
      convert_fault_spec_to_inject_step description (
        time_chaos (record {
          spec = record {
            selector = selecting selectors;
            mode = "all";
            action = "delay";
            time_offset = time_offset;
            duration = duration;
          };
          kind = "TimeChaos";
          api_version = chaos_version;
        }))

  unfoldable pub build_pod_restart_fault : String → List ChaosExpressionSelector → Outcome PlanStep
  unfolding convert_fault_spec_to_inject_step
  build_pod_restart_fault description selectors = convert_fault_spec_to_inject_step description (
      pod_chaos (record {
        spec = record {
          selector = selecting selectors;
          mode = "all";
          duration = "5s";
          action = "pod-failure";
        };
        kind = "PodChaos";
        api_version = chaos_version;
      }))

  -- The loop over the values of the selector.
  unfoldable pub io_latency_steps :
      String
      → ChaosExpressionSelector
      → Duration
      → ℤ
      → Duration
      → List String
      → Outcome (List PlanStep)
  unfolding convert_fault_spec_to_inject_step io_latency_wrapper
  io_latency_steps description selector delay percent duration [] = ok []
  io_latency_steps description selector delay percent duration (pod_name ∷ rest) = do
    volume_path ← volume_path_for_io_fault pod_name
    step ←
        convert_fault_spec_to_inject_step description
          (io_latency_wrapper selector delay percent duration volume_path)
    steps ← io_latency_steps description selector delay percent duration rest
    ok (step ∷ steps)

  unfoldable pub build_io_latency_fault :
      String → ChaosExpressionSelector → Duration → ℤ → Duration → Outcome (List PlanStep)
  unfolding io_latency_steps
  build_io_latency_fault description selector delay percent duration =
      io_latency_steps description selector delay percent duration selector.values

  unfoldable pub build_network_latency_fault :
      String → List ChaosExpressionSelector → Duration → Duration → Duration → ℤ → Outcome PlanStep
  unfolding convert_fault_spec_to_inject_step network_fault
  build_network_latency_fault description selectors delay jitter duration correlation =
      convert_fault_spec_to_inject_step description (
        network_fault "delay" selectors duration
          (some (record {
            latency = some delay;
            correlation = itoa_ℤ correlation;
            jitter = some jitter;
          }))
          none "")

  unfoldable pub build_packet_drop_fault :
      String → List ChaosExpressionSelector → ℤ → String → Duration → Outcome PlanStep
  unfolding convert_fault_spec_to_inject_step network_fault
  build_packet_drop_fault description selectors percent direction duration =
      convert_fault_spec_to_inject_step description (
        network_fault "loss" selectors duration none
          (some (record { loss = itoa_ℤ percent; correlation = "" })) direction)
