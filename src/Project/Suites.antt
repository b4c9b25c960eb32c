-- ===== src/Project/Suites.antt =====
-- pkg/project/config.go: a test suite is loaded with the network's configuration that it names.
use attacknet.Base.{true, [], ◌∷◌, String, Outcome, ok, or_fail, ◌>>=◌}
use attacknet.Base.Text.{◌++◌}
use attacknet.Types.{Config, ConfigParsed}
use attacknet.Golang.Path.{join}
use attacknet.Golang.Disk.{Disk, Os, read_file}
use attacknet.Plan.Entry.{SuiteYaml}

unfoldable pub default_config : Config
default_config = record {
  attacknet_config = record {
    grafana_pod_name = "";
    grafana_pod_port = "";
    allow_post_fault_inspection = true;
    wait_before_injection_seconds = 0;
    reuse_devnet_between_runs = true;
    existing_devnet_namespace = "";
  };
  harness_config = record { network_type = ""; network_package = ""; network_config_path = "" };
  tests = [];
}

abbrev pub suite_directory : String
suite_directory = "test-suites"

abbrev pub network_config_directory : String
network_config_directory = "network-configs"

module _ (os : Os) (suites : SuiteYaml) where
  unfoldable pub load_suite_from_path : Disk → String → Outcome ConfigParsed
  unfolding read_file default_config join
  load_suite_from_path disk path = do
    bs ← or_fail (read_file os path disk) "Could not read test suite. is the project initialized?"
    cfg ←
        or_fail (suites.unmarshal default_config bs) "Could not unmarshal the suite definition file"
    cwd ← or_fail os.getwd "Could not get working directory"
    package_config ←
        or_fail
          (read_file os
            (join (cwd ∷ network_config_directory ∷ cfg.harness_config.network_config_path ∷ []))
            disk)
          "Could not read the NetworkConfigPath file"
    ok (record {
      attacknet_config = cfg.attacknet_config;
      harness_config = record {
        network_type = cfg.harness_config.network_type;
        network_package = cfg.harness_config.network_package;
        network_config = package_config;
      };
      tests = cfg.tests;
    })

  unfoldable pub load_suite_config_from_name : Disk → String → Outcome ConfigParsed
  unfolding load_suite_from_path
  load_suite_config_from_name disk suite_name = do
    dir ← or_fail os.getwd "getwd"
    load_suite_from_path disk (join (dir ∷ suite_directory ∷ (suite_name ++ ".yaml") ∷ []))
