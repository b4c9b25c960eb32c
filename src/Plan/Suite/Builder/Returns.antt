-- ===== src/Plan/Suite/Builder/Returns.antt =====
-- ComposeTestSuite of pkg/plan/suite/suite_builder.go runs to its end: no panic, and no attack size
-- that cannot be met is reported.
use attacknet.Base.{
  ℕ, ◌+◌, ◌<◌, Bool, List, [], ◌∷◌, ◌++◌, length, All, String, ok, failure, cannot_meet, Bool-cases,
  inl, inr, Outcome-cases, IsOrderly, IsOrderly-bind, ◌>>=◌,
}
use attacknet.Plan.Network.Nodes.{Node}
use attacknet.Plan.Suite.Kinds.{
  TargetingSpec, target_matching_node, target_matching_client, other_targeting, AttackSize,
  PlannerFaultConfiguration,
}
use attacknet.Plan.Suite.Faults.{Yaml}
use attacknet.Plan.Suite.Targeting.{
  ChaosTargetSelector, TargetCriteriaFilter, NodeImpactSelector, build_node_filtering_lambda,
  target_spec_enum_to_lambda, build_chaos_mesh_target_selectors,
}
use attacknet.Plan.Suite.Builder.{
  tests_for_configs, tests_for_sizes, tests_for_dimensions, compose_test_suite,
}
use attacknet.Plan.Suite.Builder.Batches.{is_tested}
use attacknet.Plan.Suite.Builder.Safety.{IsTarget}
use attacknet.Plan.Suite.Builder.Orderly.{IsDeclared, tests_for_configs-IsOrderly}
use attacknet.Plan.Suite.Builder.Selected.{
  lambda-IsTarget, IsTarget-CanTarget, CanAttack, selectors-ne-crash, selectors-IsTarget,
}

module _ (yaml : Yaml) (config : PlannerFaultConfiguration) (is_exec_client : Bool)
    (nodes : List Node) (declared : IsDeclared config.fault_type) (small : length nodes + 1 < 1024)
    (can_attack : CanAttack config.target_client is_exec_client nodes) where
  abbrev criteria : TargetCriteriaFilter
  criteria = build_node_filtering_lambda config.target_client is_exec_client

  batch-IsOrderly :
      (spec : TargetingSpec) (impact : NodeImpactSelector) (tested : List ℕ)
      (rest : List AttackSize) (targeting : String) (targets : List ChaosTargetSelector)
      → All IsTarget targets
      → IsOrderly
          (tests_for_sizes yaml config nodes criteria spec impact (length targets ∷ tested) rest)
      → IsOrderly (do
        tests ←
            tests_for_configs yaml config.fault_type targets targeting
              config.fault_config_dimensions
        others ←
            tests_for_sizes yaml config nodes criteria spec impact (length targets ∷ tested) rest
        ok (tests ++ others))
  batch-IsOrderly spec impact tested rest targeting targets h more =
      IsOrderly-bind
        (tests_for_configs yaml config.fault_type targets targeting config.fault_config_dimensions)
        _
        (tests_for_configs-IsOrderly yaml config.fault_type targets targeting
          config.fault_config_dimensions declared (IsTarget-CanTarget config.fault_type targets h))
        (λ tests _.
          IsOrderly-bind
            (tests_for_sizes yaml config nodes criteria spec impact (length targets ∷ tested) rest)
            _ more (λ _ _. tt))

  sizes-IsOrderly :
      (spec : TargetingSpec) (impact : NodeImpactSelector)
      → ((count : ℕ) (node : Node) → IsTarget (impact count node))
      → (tested : List ℕ) (sizes : List AttackSize)
      → IsOrderly (tests_for_sizes yaml config nodes criteria spec impact tested sizes)
  unfolding tests_for_sizes
  sizes-IsOrderly spec impact h tested [] = tt
  sizes-IsOrderly spec impact h tested (size ∷ rest) =
      elim (Outcome-cases
        (build_chaos_mesh_target_selectors (length nodes + 1) nodes size criteria impact)) [
          | inl (targets, e) ↦ elim (Bool-cases (is_tested (length targets) tested)) [
            | inl old ↦ rw (e, tests_for_sizes, old) (sizes-IsOrderly spec impact h tested rest)
            | inr new ↦
                rw (e, tests_for_sizes, new)
                  (batch-IsOrderly spec impact tested rest _ targets
                    (selectors-IsTarget nodes criteria impact size targets h e)
                    (sizes-IsOrderly spec impact h (length targets ∷ tested) rest))
          ]
          | inr (inl (failure m, e)) ↦ rw (e, tests_for_sizes) tt
          | inr (inl (cannot_meet s n, e)) ↦
              rw (e, tests_for_sizes) (sizes-IsOrderly spec impact h tested rest)
          | inr (inr (c, e)) ↦ absurd (
              selectors-ne-crash config.target_client is_exec_client nodes impact size c small
                can_attack e)
        ]

  lambda-IsOrderly :
      (spec : TargetingSpec) → IsOrderly (target_spec_enum_to_lambda spec is_exec_client)
  unfolding target_spec_enum_to_lambda
  lambda-IsOrderly target_matching_node = tt
  lambda-IsOrderly target_matching_client = elim (Bool-cases is_exec_client) [
    | inl e ↦ rw e tt
    | inr e ↦ rw e tt
  ]
  lambda-IsOrderly (other_targeting _) = tt

  dimensions-IsOrderly :
      (specs : List TargetingSpec)
      → IsOrderly (tests_for_dimensions yaml config is_exec_client nodes specs)
  unfolding tests_for_dimensions
  dimensions-IsOrderly [] = tt
  dimensions-IsOrderly (spec ∷ rest) =
      IsOrderly-bind (target_spec_enum_to_lambda spec is_exec_client) _ (lambda-IsOrderly spec)
        (λ impact e.
          IsOrderly-bind
            (tests_for_sizes yaml config nodes criteria spec impact []
              config.attack_size_dimensions)
            _
            (sizes-IsOrderly spec impact (lambda-IsTarget spec is_exec_client impact e) []
              config.attack_size_dimensions)
            (λ tests _.
              IsOrderly-bind (tests_for_dimensions yaml config is_exec_client nodes rest) _
                (dimensions-IsOrderly rest) (λ _ _. tt)))

  -- For a fault type of the source, in a network of fewer than 1023 nodes besides the bootnode, where
  -- an attacked consensus client runs on some node, the suite is composed without a panic, or refused
  -- with an error that is not CannotMeetConstraintError.
  pub compose_test_suite-IsOrderly : IsOrderly (compose_test_suite yaml config is_exec_client nodes)
  unfolding compose_test_suite
  compose_test_suite-IsOrderly = dimensions-IsOrderly config.targeting_dimensions
