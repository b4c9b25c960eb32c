-- ===== src/Plan/Files.antt =====
-- pkg/plan/file.go: where a plan is written, and the writing of its two files.
use attacknet.Base.{[], ◌∷◌, String, Outcome, ok, or_fail, and_then}
use attacknet.Base.Text.{◌++◌}
use attacknet.Golang.Path.{join}
use attacknet.Golang.Disk.{Disk, Os, found, not_exist, unknown, stat, remove, write_out}

-- The three paths that preparePaths returns.
pub record Paths : Type 0 where
  pub net_ref_path : String
  pub net_config_path : String
  pub plan_config_path : String

abbrev pub paths_of : String → String → Paths
paths_of dir test_name = record {
  net_ref_path = "plan/" ++ (test_name ++ ".yaml");
  net_config_path = join (dir ∷ ("network-configs/" ++ ("plan/" ++ (test_name ++ ".yaml"))) ∷ []);
  plan_config_path = join (dir ∷ ("test-suites/plan/" ++ (test_name ++ ".yaml")) ∷ []);
}

module _ (os : Os) where
  -- A file that is there is removed.
  unfoldable pub clear : String → Disk → Outcome (Unit {0}) × Disk
  unfolding stat remove
  clear path disk = elim (stat os path disk) [
    | found ↦ remove os "unable to remove file" path disk
    | not_exist ↦ (ok tt, disk)
    | unknown ↦ (ok tt, disk)
  ]

  unfoldable pub prepare_paths : String → Disk → Outcome Paths × Disk
  unfolding clear join
  prepare_paths test_name disk =
      and_then (or_fail os.getwd "getwd", disk)
        (λ dir d.
          let paths = paths_of dir test_name in
          and_then (clear paths.net_config_path d)
            (λ _ d'. and_then (clear paths.plan_config_path d') (λ _ d''. (ok paths, d''))))

  unfoldable pub write_plans :
      (net_config_path suite_config_path net_config suite_config : String)
      → Disk
      → Outcome (Unit {0}) × Disk
  unfolding write_out
  write_plans net_config_path suite_config_path net_config suite_config disk =
      and_then
        (write_out os "cannot open network types path" "could not write network types to file"
          "could not close network types file" net_config_path net_config disk)
        (λ _ d.
          write_out os "cannot open suite types path" "could not write suite types to file"
            "could not close suite types file" suite_config_path suite_config d)
