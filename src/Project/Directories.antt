-- ===== src/Project/Directories.antt =====
-- pkg/project/project.go: the directories of a new project.
use attacknet.Base.{
  Bool, true, false, not, ◌&&◌, ◌||◌, [], ◌∷◌, if◌then◌else◌, String, Outcome, err, failure,
  and_then,
}
use attacknet.Golang.Path.{join}
use attacknet.Golang.Disk.{Disk, Os, found, not_exist, unknown, stat, mkdir}
use attacknet.Project.Suites.{suite_directory, network_config_directory}

module _ (os : Os) where
  -- !os.IsNotExist(err)
  unfoldable pub may_exist : String → Disk → Bool
  unfolding stat
  may_exist path disk = elim (stat os path disk) [
    | found ↦ true
    | not_exist ↦ false
    | unknown ↦ true
  ]

  unfoldable pub project_already_exists : String → String → Disk → Bool
  unfolding may_exist
  project_already_exists suite_path config_path disk =
      may_exist suite_path disk || may_exist config_path disk

  unfoldable pub initialize_directories_and_files :
      String → String → Disk → Outcome (Unit {0}) × Disk
  unfolding mkdir
  initialize_directories_and_files suite_path config_path disk =
      and_then (mkdir os "mkdir" suite_path disk) (λ _ d. mkdir os "mkdir" config_path d)

  unfoldable pub initialize_project : String → Bool → Disk → Outcome (Unit {0}) × Disk
  unfolding project_already_exists initialize_directories_and_files join
  initialize_project path force disk =
      let suite_path = join (path ∷ suite_directory ∷ []) in
      let config_path = join (path ∷ network_config_directory ∷ []) in
      if not force && project_already_exists suite_path config_path disk
      then (err (failure "A project already exists. Re-run with --force to overwrite."), disk)
      else initialize_directories_and_files suite_path config_path disk
