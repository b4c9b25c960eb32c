-- ===== src/Project/Planned.antt =====
-- A plan that BuildPlan of pkg/plan/plan.go wrote, loaded by pkg/project/config.go.
use attacknet.Base.{
  ℕ, ◌≡◌, refl, sym, ap, ◌∙◌, subst, false, some, List, [], ◌∷◌, map, String, ok, or_fail, ◌>>=◌,
  ok_of_and_then, ok_of_lifted, ok_of_bind, ok-injective, some_of_or_fail,
}
use attacknet.Base.Dict.{lookup}
use attacknet.Base.Text.{◌++◌, str_eq}
use attacknet.Types.{AttacknetConfig, Config, ConfigParsed, SuiteTest}
use attacknet.Golang.Path.{join}
use attacknet.Golang.Disk.{Disk, Os, to_read, read_file}
use attacknet.Plan.Network.Nodes.{Node}
use attacknet.Plan.Network.Topology.{compose_network_topology}
use attacknet.Plan.Suite.Faults.{Yaml}
use attacknet.Plan.Suite.Builder.{compose_test_suite}
use attacknet.Plan.PlannerConfig.{PlannerConfig, is_target_execution_client}
use attacknet.Plan.Serialization.{
  NetworkYaml, eth_kurtosis_config, serialize_network_topology, deserialize_network_topology,
}
use attacknet.Plan.Serialization.Roundtrip.{restored}
use attacknet.Plan.Serialization.Planned.{planned_roundtrip}
use attacknet.Plan.Files.{Paths, paths_of, prepare_paths}
use attacknet.Plan.Entry.{
  SuiteYaml, Plans, attacknet_config, suite_config, compose_plans, build_plan,
}
use attacknet.Plan.Entry.Written.{prepare_paths-ok}
use attacknet.Project.Suites.{load_suite_from_path, load_suite_config_from_name, default_config}
use attacknet.Project.Locations.{write_plans-ok, read_file-file, net_path-joined, suite_path-joined}

-- The configuration of the suite that a loaded plan gives back.
abbrev pub parsed : Config → String → ConfigParsed
parsed config network_text = record {
  attacknet_config = config.attacknet_config;
  harness_config = record {
    network_type = config.harness_config.network_type;
    network_package = config.harness_config.network_package;
    network_config = network_text;
  };
  tests = config.tests;
}

-- Loading finds the two files where the plan's paths are.
load_suite-found :
    (os : Os) (suites : SuiteYaml) (dir name suite_text network_text : String) (config : Config)
    (disk : Disk)
    → os.getwd ≡ some dir
    → (config.harness_config.network_config_path ≡ (paths_of dir name).net_ref_path)
    → suites.unmarshal default_config suite_text ≡ some config
    → read_file os (paths_of dir name).plan_config_path disk ≡ some suite_text
    → read_file os (paths_of dir name).net_config_path disk ≡ some network_text
    → load_suite_config_from_name os suites disk ("plan/" ++ name) ≡ ok (parsed config network_text)
unfolding load_suite_config_from_name load_suite_from_path
load_suite-found os suites dir name suite_text network_text config disk g p u s n =
    let s' = ap (λ x. read_file os x disk) (sym (suite_path-joined dir name)) ∙ s in
    let n' =
      ap (λ x. read_file os (join (dir ∷ "network-configs" ∷ x ∷ [])) disk) p
      ∙ ap (λ x. read_file os x disk) (sym (net_path-joined dir name))
      ∙ n in
    rw (g, s', u, n') refl

-- What the parts of a plan compose to is what its two texts are made from.
compose_plans-ok :
    (faults : Yaml) (networks : NetworkYaml) (suites : SuiteYaml) (fuel : ℕ) (paths : Paths)
    (config : PlannerConfig) (plans : Plans) (bootnode : Node) (nodes : List Node)
    (tests : List SuiteTest) (attacknet : AttacknetConfig)
    → compose_network_topology fuel config.topology config.fault_config.target_client
        config.execution_clients config.consensus_clients
      ≡ ok (bootnode ∷ nodes)
    → compose_test_suite faults config.fault_config (is_target_execution_client config) nodes
      ≡ ok tests
    → attacknet_config config ≡ ok attacknet
    → compose_plans faults networks suites fuel paths config ≡ ok plans
    → (suites.marshal (suite_config paths config attacknet tests) ≡ some plans.suite_text)
      × (serialize_network_topology networks (bootnode ∷ nodes) config.genesis_params
          ≡ ok plans.network_text)
unfolding compose_plans
compose_plans-ok faults networks suites fuel paths config plans bootnode nodes tests attacknet c s a
      e =
    let e₁ : (or_fail (suites.marshal (suite_config paths config attacknet tests)) "yaml.Marshal"
          >>= (λ suite_text.
              serialize_network_topology networks (bootnode ∷ nodes) config.genesis_params
              >>= (λ network_text.
                  ok (record { network_text = network_text; suite_text = suite_text }))))
        ≡ ok plans =
      sym (rw (c, s, a) refl) ∙ e in
    let (suite_text, m, e₂) =
      ok_of_bind
        (or_fail (suites.marshal (suite_config paths config attacknet tests)) "yaml.Marshal") _
        e₁ in
    let (network_text, n, e₃) =
      ok_of_bind (serialize_network_topology networks (bootnode ∷ nodes) config.genesis_params) _
        e₂ in
    let made : record { network_text = network_text; suite_text = suite_text } ≡ plans =
      ok-injective e₃ in
    (
      some_of_or_fail _ "yaml.Marshal" m ∙ ap (λ (q : Plans). some q.suite_text) made,
      n ∙ ap (λ (q : Plans). ok q.network_text) made,
    )

-- A plan that BuildPlan wrote, loaded under its name: if the two paths of the plan differ, the files
-- may be read, and YAML reads the suite and the network back, then the suite's configuration is the
-- composed one, with the composed tests, and the network's text gives the composed nodes in their
-- order, but for the votes and the images of the validators.
pub build_plan-load_suite :
    (faults : Yaml) (networks : NetworkYaml) (suites : SuiteYaml) (os : Os) (fuel : ℕ)
    (dir name : String) (config : PlannerConfig) (disk d : Disk) (bootnode : Node)
    (nodes : List Node) (tests : List SuiteTest) (attacknet : AttacknetConfig)
    → os.getwd ≡ some dir
    → str_eq (paths_of dir name).plan_config_path (paths_of dir name).net_config_path ≡ false
    → os.refuses to_read (paths_of dir name).plan_config_path ≡ false
    → os.refuses to_read (paths_of dir name).net_config_path ≡ false
    → compose_network_topology fuel config.topology config.fault_config.target_client
        config.execution_clients config.consensus_clients
      ≡ ok (bootnode ∷ nodes)
    → compose_test_suite faults config.fault_config (is_target_execution_client config) nodes
      ≡ ok tests
    → attacknet_config config ≡ ok attacknet
    → ((text : String)
        → suites.marshal (suite_config (paths_of dir name) config attacknet tests) ≡ some text
        → suites.unmarshal default_config text
          ≡ some (suite_config (paths_of dir name) config attacknet tests))
    → ((text : String)
        → networks.marshal (eth_kurtosis_config (bootnode ∷ nodes) config.genesis_params)
          ≡ some text
        → networks.unmarshal text
          ≡ some (eth_kurtosis_config (bootnode ∷ nodes) config.genesis_params))
    → build_plan faults networks suites os fuel name config disk ≡ (ok tt, d)
    → (text : String) × (load_suite_config_from_name os suites d ("plan/" ++ name)
        ≡ ok (parsed (suite_config (paths_of dir name) config attacknet tests) text))
      × (deserialize_network_topology networks text
          ≡ ok (map (restored config.genesis_params.num_val_keys_per_node) (bootnode ∷ nodes)))
unfolding build_plan compose_plans
build_plan-load_suite faults networks suites os fuel dir name config disk d bootnode nodes tests
      attacknet g differ may_suite may_net composed suite attack reads_suite reads_net e =
    let (paths, d₁, p, e₁) = ok_of_and_then (prepare_paths os name disk) _ e in
    let (dir', g', same) = prepare_paths-ok os name disk d₁ paths p in
    let dirs : dir' ≡ dir = cc in
    let is_paths : paths_of dir name ≡ paths = ap (λ x. paths_of x name) (sym dirs) ∙ same in
    let (plans, c, e₂) =
      ok_of_lifted (compose_plans faults networks suites fuel paths config) d₁ _ e₁ in
    let (w_net, w_suite) =
      write_plans-ok os paths.net_config_path paths.plan_config_path plans.network_text
        plans.suite_text d₁ d
        (subst (λ (q : Paths). str_eq q.plan_config_path q.net_config_path ≡ false) is_paths differ)
        e₂ in
    let (suite_made, net_made) =
      compose_plans-ok faults networks suites fuel paths config plans bootnode nodes tests attacknet
        composed suite attack c in
    let suite_at = ap (λ (q : Paths). lookup q.plan_config_path d) is_paths ∙ w_suite in
    let net_at = ap (λ (q : Paths). lookup q.net_config_path d) is_paths ∙ w_net in
    let marshalled =
      ap (λ q. suites.marshal (suite_config q config attacknet tests)) is_paths ∙ suite_made in
    (
      plans.network_text,
      load_suite-found os suites dir name plans.suite_text plans.network_text
          (suite_config (paths_of dir name) config attacknet tests) d g refl
          (reads_suite plans.suite_text marshalled)
          (read_file-file os (paths_of dir name).plan_config_path plans.suite_text d may_suite
            suite_at)
          (read_file-file os (paths_of dir name).net_config_path plans.network_text d may_net
            net_at),
      planned_roundtrip networks fuel config.topology config.fault_config.target_client
          config.execution_clients config.consensus_clients (bootnode ∷ nodes) config.genesis_params
          plans.network_text (reads_net plans.network_text) composed net_made,
    )
