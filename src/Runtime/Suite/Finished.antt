-- ===== src/Runtime/Suite/Finished.antt =====
-- What a run of StartTestSuite of pkg/runtime.go leaves behind.
use attacknet.Base.{
  ℕ, ◌≡◌, refl, ap, ◌∙◌, subst, Bool, true, false, inl, inr, Option, some, List, String, Outcome,
  ok, err, crash, if◌then◌else◌, or_fail, require, ok_of_and_then, ok_of_lifted, ok_of_bind,
  ok-injective, some_of_or_fail, branch_of,
}
use attacknet.Base.Dict.{lookup}
use attacknet.Base.Text.{str_eq, contains}
use attacknet.Golang.Disk.{Disk, Os, file}
use attacknet.Golang.Disk.Kept.{write_out-ok}
use attacknet.Types.{AttacknetConfig, ConfigParsed}
use attacknet.Chaos.Client.{ChaosApi}
use attacknet.Executor.Run.{StepYaml}
use attacknet.Kurtosis.{
  EnclaveContextWrapper, EnclaveAnswer, existing, no_context, is_error_no_enclave_found,
  get_enclave_name, context_from, create_or_import_context, start_network, destroy,
}
use attacknet.Runtime.Devnet.{
  EngineAnswer, context, read_namespace, setup_devnet, load_enclave_from_existing_devnet,
  setup_enclave,
}
use attacknet.Runtime.Artifacts.{
  TestArtifact, artifact_directory, artifact_path, make_directory, serialize_test_artifacts,
}
use attacknet.Runtime.Suite.{SuiteAnswer, run_tests, start_test_suite}
use attacknet.Runtime.Suite.Results.{Kept, run_tests-Kept}

serialized :
    (os : Os) (marshal : List TestArtifact → Option String) (millis : ℕ)
    (artifacts : List TestArtifact) (disk d : Disk)
    → serialize_test_artifacts os marshal millis artifacts disk ≡ (ok tt, d)
    → (cwd text : String) × (os.getwd ≡ some cwd)
      × (marshal artifacts ≡ some text)
      × (lookup (artifact_path cwd millis) d ≡ some (file text))
unfolding serialize_test_artifacts
serialized os marshal millis artifacts disk d e =
    let (cwd, g, e₁) = ok_of_lifted (or_fail os.getwd "getwd") disk _ e in
    let made = make_directory os marshal (artifact_directory cwd) disk in
    let (text, m, e₂) =
      ok_of_lifted (or_fail (marshal artifacts) "could not marshal test artifacts") made _ e₁ in
    (
      cwd,
      text,
      some_of_or_fail os.getwd "getwd" g,
      some_of_or_fail (marshal artifacts) _ m,
      write_out-ok os _ _ _ (artifact_path cwd millis) text made d e₂,
    )

-- Asked for the enclave of the configured namespace, the engine answered with an error that says that it
-- found none, and created the one of the given name when asked to make it.
abbrev pub IsCreated : EngineAnswer → AttacknetConfig → String → Type 0
IsCreated engine cfg name =
    (asked : List ℕ) × (root_cause : String) × (get_enclave_name engine.now
        cfg.existing_devnet_namespace
      ≡ ok asked)
    × (engine.get asked ≡ no_context root_cause)
    × (contains root_cause "Couldn't find an enclave for identifier" ≡ true)
    × (engine.create asked ≡ some name)

fresh_context :
    (create : List ℕ → Option String) (cfg : AttacknetConfig) (asked : List ℕ)
    (answer : EnclaveAnswer) (e : EnclaveContextWrapper) (is_created : Bool)
    → context_from create cfg asked answer ≡ ok (e, is_created)
    → e.reuse_devnet_between_runs ≡ false
    → (cfg.reuse_devnet_between_runs ≡ false)
      × ((root_cause : String) × (answer ≡ no_context root_cause)
          × (contains root_cause "Couldn't find an enclave for identifier" ≡ true)
          × (create asked ≡ some e.enclave_name))
unfolding context_from is_error_no_enclave_found
fresh_context create cfg asked (existing found) e is_created h r =
    elim (branch_of cfg.reuse_devnet_between_runs _ _ h) [
      | inl (y, made) ↦
          let kept : true ≡ e.reuse_devnet_between_runs =
            ap (λ (p : EnclaveContextWrapper × Bool). p.0.reuse_devnet_between_runs)
              (ok-injective made) in
          cc
      | inr (n, failed) ↦ cc
    ]
fresh_context create cfg asked (no_context root_cause) e is_created h r =
    elim (branch_of (is_error_no_enclave_found root_cause) _ _ h) [
      | inr (n, failed) ↦ cc
      | inl (y, made) ↦
          let (name, c, made') =
            ok_of_bind (or_fail (create asked) "CreateProductionEnclave") _ made in
          let same : cfg.reuse_devnet_between_runs ≡ e.reuse_devnet_between_runs =
            ap (λ (p : EnclaveContextWrapper × Bool). p.0.reuse_devnet_between_runs)
              (ok-injective made') in
          let named : name ≡ e.enclave_name =
            ap (λ (p : EnclaveContextWrapper × Bool). p.0.enclave_name) (ok-injective made') in
          (same ∙ r, (root_cause, refl, y, some_of_or_fail (create asked) _ c ∙ ap some named))
    ]

-- The enclave that the suite runs in came from the context.
module _ (engine : EngineAnswer) (cfg : ConfigParsed) (e : EnclaveContextWrapper) where
  of_context :
      (m : Outcome (EnclaveContextWrapper × Bool)) (made : EnclaveContextWrapper × Bool)
      → read_namespace engine cfg m ≡ ok made
      → m ≡ ok made
  of_context (ok _) made h = h
  of_context (err _) made h = cc
  of_context (crash _) made h = cc

  from_context :
      setup_enclave engine cfg ≡ ok e
      → (is_created : Bool) × (context engine cfg ≡ ok (e, is_created))
  unfolding setup_enclave setup_devnet load_enclave_from_existing_devnet
  from_context h =
      elim (branch_of (str_eq cfg.attacknet_config.existing_devnet_namespace "") _ _ h) [
        | inl (y, s) ↦
            let (_, _, h₁) = ok_of_bind (require engine.is_reached _) _ s in
            let ((made, is_created), c, h₂) =
              ok_of_bind (read_namespace engine cfg (context engine cfg)) _ h₁ in
            let (_, _, h₃) = ok_of_bind (start_network engine.run) _ h₂ in
            (
              is_created,
              of_context (context engine cfg) (made, is_created) c
                  ∙ ap (λ x. ok (x, is_created)) (ok-injective h₃),
            )
        | inr (n, s) ↦
            let (_, _, h₁) = ok_of_bind (require engine.is_reached _) _ s in
            let ((made, is_created), c, h₂) = ok_of_bind (context engine cfg) _ h₁ in
            let (_, _, h₃) =
              ok_of_bind (if is_created then start_network engine.run else ok tt) _ h₂ in
            (is_created, c ∙ ap (λ x. ok (x, is_created)) (ok-injective h₃))
      ]

  setup_enclave-IsCreated :
      setup_enclave engine cfg ≡ ok e
      → e.reuse_devnet_between_runs ≡ false
      → (cfg.attacknet_config.reuse_devnet_between_runs ≡ false)
        × IsCreated engine cfg.attacknet_config e.enclave_name
  unfolding create_or_import_context
  setup_enclave-IsCreated h r =
      let (is_created, c) = from_context h in
      let (asked, a, c₁) =
        ok_of_bind (get_enclave_name engine.now cfg.attacknet_config.existing_devnet_namespace) _
          c in
      let (n, (root_cause, missing, says, made)) =
        fresh_context engine.create cfg.attacknet_config asked (engine.get asked) e is_created c₁
          r in
      (n, (asked, root_cause, a, missing, says, made))

destroyed_name :
    (is_destroyed : Bool) (e : EnclaveContextWrapper) (name : String)
    → destroy is_destroyed e ≡ ok (some name)
    → (e.reuse_devnet_between_runs ≡ false) × (e.enclave_name ≡ name)
unfolding destroy
destroyed_name is_destroyed e name h = elim (branch_of e.reuse_devnet_between_runs _ _ h) [
  | inl (y, kept) ↦ cc
  | inr (n, asked) ↦ elim (branch_of is_destroyed _ _ asked) [
    | inl (d, named) ↦ let same : some e.enclave_name ≡ some name = ok-injective named in (n, cc)
    | inr (f, failed) ↦ cc
  ]
]

module _ (api : ChaosApi) (yaml : StepYaml) (os : Os) (marshal : List TestArtifact → Option String)
    (cfg : ConfigParsed) (answer : SuiteAnswer) (disk d : Disk) where
  -- The parts of a run that comes to its end.
  suite_parts :
      (destroyed : Option String)
      → start_test_suite api yaml os marshal cfg answer disk ≡ (ok destroyed, d)
      → (enclave : EnclaveContextWrapper) × (artifacts : List TestArtifact) × (setup_enclave
            answer.engine cfg
          ≡ ok enclave)
        × (run_tests api yaml cfg.tests answer.tests ≡ ok artifacts)
        × (serialize_test_artifacts os marshal answer.millis artifacts disk ≡ (ok tt, d))
        × (destroy answer.is_destroyed enclave ≡ ok destroyed)
  unfolding start_test_suite
  suite_parts destroyed h =
      let (enclave, s, h₁) = ok_of_lifted (setup_enclave answer.engine cfg) disk _ h in
      let (_, _, h₂) = ok_of_lifted (require answer.has_kube_client "CreateKubeClient") disk _ h₁ in
      let (_, _, h₃) = ok_of_lifted (require answer.has_chaos_client "CreateClient") disk _ h₂ in
      let (artifacts, r, h₄) = ok_of_lifted (run_tests api yaml cfg.tests answer.tests) disk _ h₃ in
      let (_, d₁, w, h₅) =
        ok_of_and_then (serialize_test_artifacts os marshal answer.millis artifacts disk) _ h₄ in
      (enclave, artifacts, s, r, w ∙ ap (λ x. (ok tt, x.1)) h₅, ap (λ x. x.0) h₅)

-- A test suite that comes to its end has written a file below the working directory that holds the
-- YAML of its artifacts. These are made test by test in order, after the test's plan has run to its
-- end from a new executor: a test without enabled checks leaves no artifact; another leaves one of its
-- name with the names of the pods under test after its plan and the result of the rounds of checks
-- with exactly these pods under test until the end of its grace period, and it passed if and only if
-- none of the four tests of that result reports a client. The first artifact that did not pass is the
-- last, and without one all tests were run.
pub start_test_suite_lem :
    (api : ChaosApi) (yaml : StepYaml) (os : Os) (marshal : List TestArtifact → Option String)
    (cfg : ConfigParsed) (answer : SuiteAnswer) (disk d : Disk) (destroyed : Option String)
    → start_test_suite api yaml os marshal cfg answer disk ≡ (ok destroyed, d)
    → (artifacts : List TestArtifact) × (cwd text : String) × Kept api yaml cfg.tests answer.tests
        artifacts
      × (os.getwd ≡ some cwd)
      × (marshal artifacts ≡ some text)
      × (lookup (artifact_path cwd answer.millis) d ≡ some (file text))
start_test_suite_lem api yaml os marshal cfg answer disk d destroyed h =
    let (enclave, artifacts, s, r, w, _) =
      suite_parts api yaml os marshal cfg answer disk d destroyed h in
    let (cwd, text, g, m, l) = serialized os marshal answer.millis artifacts disk d w in
    (artifacts, cwd, text, run_tests-Kept api yaml cfg.tests answer.tests artifacts r, g, m, l)

-- The only enclave that a test suite destroys is one that the engine created for this run, asked for the
-- name that the configured namespace stands for, after it had answered that it found no enclave of that
-- name; and it is destroyed only if devnets are not to be reused.
pub start_test_suite_destroys :
    (api : ChaosApi) (yaml : StepYaml) (os : Os) (marshal : List TestArtifact → Option String)
    (cfg : ConfigParsed) (answer : SuiteAnswer) (disk d : Disk) (name : String)
    → start_test_suite api yaml os marshal cfg answer disk ≡ (ok (some name), d)
    → (cfg.attacknet_config.reuse_devnet_between_runs ≡ false)
      × IsCreated answer.engine cfg.attacknet_config name
start_test_suite_destroys api yaml os marshal cfg answer disk d name h =
    let (enclave, artifacts, s, _, _, e) =
      suite_parts api yaml os marshal cfg answer disk d (some name) h in
    let (n, same) = destroyed_name answer.is_destroyed enclave name e in
    let (off, created) = setup_enclave-IsCreated answer.engine cfg enclave s n in
    (off, subst (IsCreated answer.engine cfg.attacknet_config) same created)
