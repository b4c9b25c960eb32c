-- ===== src/Plan/Suite/Builder/Batches.antt =====
-- How the loops of ComposeTestSuite in pkg/plan/suite/suite_builder.go fill the suite.
use attacknet.Base.{
  ℕ, ◌+◌, ◌==◌, ◌≡◌, Bool, false, List, [], ◌∷◌, ◌++◌, length, any, some, map, String, Outcome, ok,
  cannot_meet, ◌>>=◌, err, true,
}
use attacknet.Base.Dict.{Dict}
use attacknet.Types.{SuiteTest}
use attacknet.Plan.Network.Nodes.{Node}
use attacknet.Plan.Suite.Kinds.{AttackSize, FaultType, TargetingSpec, PlannerFaultConfiguration}
use attacknet.Plan.Suite.Faults.{Yaml}
use attacknet.Plan.Suite.Targeting.{
  ChaosTargetSelector, TargetCriteriaFilter, NodeImpactSelector, build_chaos_mesh_target_selectors,
  build_node_filtering_lambda, target_spec_enum_to_lambda,
}
use attacknet.Plan.Suite.Builder.{compose_test_for_fault_type, targeting_description}
use attacknet.Plan.Suite.Builder.Selected.{choice_for}
use attacknet.Plan.Suite.Builder.Shape.{fault_count, IsComposed}

-- Is the number one of those that were tested already?
abbrev pub is_tested : ℕ → List ℕ → Bool
is_tested k tested = any (λ n. n == k) tested

-- The tests are those for the fault configurations, one for each in order, with faults on the targets.
abbrev pub AreFor :
    Yaml
    → FaultType
    → List ChaosTargetSelector
    → String
    → List (Dict String)
    → List SuiteTest
    → Type 0
AreFor yaml fault_type targets targeting [] [] = Unit
AreFor yaml fault_type targets targeting (config ∷ configs) (test ∷ tests) =
    (compose_test_for_fault_type yaml fault_type config targets targeting ≡ ok (some test))
    × IsComposed (fault_count fault_type targets) test
    × AreFor yaml fault_type targets targeting configs tests
AreFor yaml fault_type targets targeting _ _ = ⊥

-- The tests of one targeting dimension, by the nodes that each attack size chooses: a size that cannot be
-- met and one for a number of targets that was tested already give no tests, and another gives a batch on
-- the chosen nodes.
pub data Batches (yaml : Yaml) (config : PlannerFaultConfiguration)
    (choice : AttackSize → Outcome (List Node)) (impact : Node → ChaosTargetSelector)
    (targeting : AttackSize → String) : List AttackSize → List ℕ → List SuiteTest → Type 0 where
  last : {tested : List ℕ} → Batches yaml config choice impact targeting [] tested []
  unmet :
      {size : AttackSize} {asked : String} {sizes : List AttackSize} {tested : List ℕ}
      {tests : List SuiteTest} (n : ℕ)
      → choice size ≡ err (cannot_meet asked n)
      → Batches yaml config choice impact targeting sizes tested tests
      → Batches yaml config choice impact targeting (size ∷ sizes) tested tests
  again :
      {size : AttackSize} {sizes : List AttackSize} {tested : List ℕ} {tests : List SuiteTest}
      (chosen : List Node) (targets : List ChaosTargetSelector)
      → choice size ≡ ok chosen
      → targets ≡ map impact chosen
      → is_tested (length targets) tested ≡ true
      → Batches yaml config choice impact targeting sizes tested tests
      → Batches yaml config choice impact targeting (size ∷ sizes) tested tests
  batch :
      {size : AttackSize} {sizes : List AttackSize} {tested : List ℕ} {tests : List SuiteTest}
      (chosen : List Node) (targets : List ChaosTargetSelector) (first others : List SuiteTest)
      → choice size ≡ ok chosen
      → targets ≡ map impact chosen
      → is_tested (length targets) tested ≡ false
      → tests ≡ first ++ others
      → AreFor yaml config.fault_type targets (targeting size) config.fault_config_dimensions first
      → Batches yaml config choice impact targeting sizes (length targets ∷ tested) others
      → Batches yaml config choice impact targeting (size ∷ sizes) tested tests

-- The tests of the whole suite: those of each dimension in turn.
pub data Dimensions (yaml : Yaml) (config : PlannerFaultConfiguration) (is_exec_client : Bool)
    (nodes : List Node) : List TargetingSpec → List SuiteTest → Type 0 where
  over : Dimensions yaml config is_exec_client nodes [] []
  dimension :
      {spec : TargetingSpec} {specs : List TargetingSpec} {tests : List SuiteTest}
      (target_filter : NodeImpactSelector) (first others : List SuiteTest)
      → target_spec_enum_to_lambda spec is_exec_client ≡ ok target_filter
      → tests ≡ first ++ others
      → Batches yaml config
          (choice_for is_exec_client config.target_client nodes)
          (target_filter (length nodes + 1))
          (targeting_description spec config.target_client)
          config.attack_size_dimensions
          []
          first
      → Dimensions yaml config is_exec_client nodes specs others
      → Dimensions yaml config is_exec_client nodes (spec ∷ specs) tests

module _ (yaml : Yaml) (config : PlannerFaultConfiguration) (nodes : List Node)
    (is_exec_client : Bool) (spec : TargetingSpec) (target_filter : NodeImpactSelector) where
  abbrev node_filter : TargetCriteriaFilter
  node_filter = build_node_filtering_lambda config.target_client is_exec_client

  abbrev selectors_for : AttackSize → Outcome (List ChaosTargetSelector)
  selectors_for size =
      build_chaos_mesh_target_selectors (length nodes + 1) nodes size node_filter target_filter

  abbrev AreBatches : List AttackSize → List ℕ → List SuiteTest → Type 0
  AreBatches sizes tested tests =
      Batches yaml config (choice_for is_exec_client config.target_client nodes)
        (target_filter (length nodes + 1)) (targeting_description spec config.target_client) sizes
        tested tests
