-- ===== src/Plan/Entry/Written.antt =====
-- What BuildPlan of pkg/plan/plan.go leaves on the disk.
use attacknet.Base.{
  ℕ, ◌≡◌, refl, sym, ap, ◌∙◌, false, inl, inr, some, String, ok, or_fail, and_then-keeps,
  and_then-keeps_from, ok_of_and_then, ok_of_lifted, ok-injective, some_of_or_fail,
}
use attacknet.Base.Text.{str_eq}
use attacknet.Golang.Disk.{Disk, Os, stat, Stat-cases}
use attacknet.Golang.Disk.{write_out}
use attacknet.Golang.Disk.Kept.{Same, remove-Same, write_out-Same}
use attacknet.Plan.Suite.Faults.{Yaml}
use attacknet.Plan.PlannerConfig.{PlannerConfig}
use attacknet.Plan.Serialization.{NetworkYaml}
use attacknet.Plan.Files.{Paths, paths_of, clear, prepare_paths, write_plans}
use attacknet.Plan.Entry.{SuiteYaml, compose_plans, build_plan}

module _ (os : Os) (other : String) where
  clear-Same :
      (path : String) (disk : Disk)
      → str_eq path other ≡ false
      → Same other disk ((clear os path disk).1)
  unfolding clear
  clear-Same path disk n = elim (Stat-cases (stat os path disk)) [
    | inl s ↦ rw (clear, s) (remove-Same os other "unable to remove file" path disk n)
    | inr (inl s) ↦ rw (clear, s) refl
    | inr (inr s) ↦ rw (clear, s) refl
  ]

  write_plans-Same :
      (net_path suite_path net_config suite_config : String) (disk : Disk)
      → str_eq net_path other ≡ false
      → str_eq suite_path other ≡ false
      → Same other disk ((write_plans os net_path suite_path net_config suite_config disk).1)
  unfolding write_plans
  write_plans-Same net_path suite_path net_config suite_config disk n m =
      and_then-keeps (Same other disk) (write_out os _ _ _ net_path net_config disk) _
        (write_out-Same os other _ _ _ net_path net_config disk n)
        (λ _ d h. write_out-Same os other _ _ _ suite_path suite_config d m ∙ h)

-- The paths are those below the working directory.
pub prepare_paths-ok :
    (os : Os) (name : String) (disk d : Disk) (paths : Paths)
    → prepare_paths os name disk ≡ (ok paths, d)
    → (dir : String) × (os.getwd ≡ some dir) × (paths_of dir name ≡ paths)
unfolding prepare_paths
prepare_paths-ok os name disk d paths e =
    let (dir, g, e₁) = ok_of_lifted (or_fail os.getwd "getwd") disk _ e in
    let (_, _, _, e₂) = ok_of_and_then (clear os (paths_of dir name).net_config_path disk) _ e₁ in
    let (_, _, _, e₃) = ok_of_and_then (clear os (paths_of dir name).plan_config_path _) _ e₂ in
    (dir, some_of_or_fail os.getwd "getwd" g, ok-injective (ap (λ p. p.0) e₃))

-- The path is none of the two that a plan of the name is written to.
abbrev pub IsElsewhere : Os → String → String → Type 0
IsElsewhere os name other =
    (dir : String)
    → os.getwd ≡ some dir
    → (str_eq (paths_of dir name).net_config_path other ≡ false)
      × (str_eq (paths_of dir name).plan_config_path other ≡ false)

prepare_paths-Same :
    (os : Os) (name other : String) (disk : Disk)
    → IsElsewhere os name other
    → Same other disk ((prepare_paths os name disk).1)
unfolding prepare_paths
prepare_paths-Same os name other disk elsewhere =
    and_then-keeps_from (Same other disk) (or_fail os.getwd "getwd", disk) _ refl
      (λ dir d g h.
        let (n, m) = elsewhere dir (some_of_or_fail os.getwd "getwd" (ap (λ p. p.0) g)) in
        and_then-keeps (Same other disk) (clear os (paths_of dir name).net_config_path d) _
          (clear-Same os other (paths_of dir name).net_config_path d n ∙ h)
          (λ _ d' h'.
            and_then-keeps (Same other disk) (clear os (paths_of dir name).plan_config_path d') _
              (clear-Same os other (paths_of dir name).plan_config_path d' m ∙ h')
              (λ _ d'' h''. h'')))

-- However BuildPlan ends, each path but the two of the plan's files holds what it held before.
pub build_plan_elsewhere :
    (faults : Yaml) (networks : NetworkYaml) (suites : SuiteYaml) (os : Os) (fuel : ℕ)
    (name other : String) (config : PlannerConfig) (disk : Disk)
    → IsElsewhere os name other
    → Same other disk ((build_plan faults networks suites os fuel name config disk).1)
unfolding build_plan
build_plan_elsewhere faults networks suites os fuel name other config disk elsewhere =
    and_then-keeps_from (Same other disk) (prepare_paths os name disk) _
      (prepare_paths-Same os name other disk elsewhere)
      (λ paths d e h.
        let (dir, g, p) = prepare_paths-ok os name disk d paths e in
        let (n, m) = elsewhere dir g in
        and_then-keeps (Same other disk) (compose_plans faults networks suites fuel paths config, d)
          _ h
          (λ plans d' h'.
            write_plans-Same os other paths.net_config_path paths.plan_config_path
              plans.network_text plans.suite_text d'
              (ap (λ (q : Paths). str_eq q.net_config_path other) (sym p) ∙ n)
              (ap (λ (q : Paths). str_eq q.plan_config_path other) (sym p) ∙ m)
            ∙ h'))
