-- ===== src/Runtime/Suite/Results.antt =====
-- Which results StartTestSuite of pkg/runtime.go keeps.
use attacknet.Base.{
  ℕ, suc, ◌+◌, ◌-◌, ◌≡◌, ◌↔◌, ◌⊎◌, Bool, ◌&&◌, is_nil, arith, inl, inr, refl, sym, ap, ◌∙◌, subst,
  true, false, Bool-cases, Option, none, some, List, [], ◌∷◌, map, ok, crash, nil_pointer,
  ok_of_bind, ok-injective, ◌>>=◌,
}
use attacknet.Base.Int.{pos, negsuc}
use attacknet.Golang.Duration.{Duration}
use attacknet.Types.{SuiteTest}
use attacknet.Chaos.Client.{ChaosApi}
use attacknet.Chaos.Session.{PodUnderTest}
use attacknet.Executor.Collect.{TestExecutor, get_pods_under_test}
use attacknet.Executor.Run.{StepYaml, Running, create_test_executor, run_test_plan}
use attacknet.Health.Targets.{EthNetworkChecker, lookup_of, create_eth_network_checker}
use attacknet.Health.Checks.{
  BlockConsensusArtifact, HealthCheckResult, no_failing_clients, all_checks_passed,
}
use attacknet.Health.Checks.Rounds.{run_checks, check_rounds}
use attacknet.Health.Orchestrator.{CheckOrchestrator, rounds_of, build_health_checker, orchestrate}
use attacknet.Runtime.Artifacts.{TestArtifact, build_test_artifact}
use attacknet.Runtime.Suite.{TestAnswer, check_test, run_test, file_artifact, run_tests}

-- The end of a grace period that may be negative.
abbrev pub end_of : ℕ → Duration → ℕ
end_of start (pos n) = start + n
end_of start (negsuc n) = start - suc n

-- No client is reported by the test.
abbrev pub IsSilent : BlockConsensusArtifact → Type 0
IsSilent a =
    (a.test_result.failing_clients_reported_block ≡ [])
    × (a.test_result.failing_clients_reported_hash ≡ [])

-- No client is reported by any of the four tests.
abbrev pub AreSilent : HealthCheckResult → Type 0
AreSilent r =
    IsSilent r.latest_el_block_result
    × IsSilent r.finalized_el_block_result
    × IsSilent r.latest_cl_block_result
    × IsSilent r.finalized_cl_block_result

-- The result is that of the rounds of checks on the network with these pods under test, from the start
-- of the checks to the end of the grace period.
abbrev pub IsResultFor : List PodUnderTest → SuiteTest → TestAnswer → HealthCheckResult → Type 0
IsResultFor pods test answer results =
    (checker : EthNetworkChecker) × (grace_period : Duration) × (checker.pods_under_test ≡ pods)
    × (checker.pods_under_test_lookup ≡ lookup_of pods [])
    × (test.health_config.grace_period ≡ some grace_period)
    × (check_rounds (lookup_of pods []) (end_of answer.checks_start grace_period) none
          (rounds_of checker answer.turns)
        ≡ ok results)

module _ (api : ChaosApi) (yaml : StepYaml) where
  -- The plan of the test has run to its end from a new executor.
  abbrev pub HasRun : SuiteTest → TestAnswer → TestExecutor → Type 0
  HasRun test answer executor =
      (ran : Running) × (run_test_plan api yaml answer.steps
          (record { executor = create_test_executor test; pauses = [] })
        ≡ (ok tt, ran))
      × (ran.executor ≡ executor)

  -- The artifact is of the test, whose checks are enabled: its containers are the pods under test after
  -- its plan, and its verdict is that of the checks on them.
  abbrev pub IsOf : SuiteTest → TestAnswer → TestArtifact → Type 0
  IsOf test answer a =
      (executor : TestExecutor) × (pods : List PodUnderTest) × HasRun test answer executor
      × (get_pods_under_test executor ≡ ok pods)
      × (test.health_config.enable_checks ≡ true)
      × (a.test_description ≡ test.test_name)
      × (a.containers_targeted ≡ map (λ (p : PodUnderTest). p.name) pods)
      × IsResultFor pods test answer a.health_result
      × ((a.test_passed ≡ true) ↔ AreSilent a.health_result)

  -- The artifacts of a run, test by test: a test without checks leaves none, and a failed one is the
  -- last.
  pub data Kept : List SuiteTest → List TestAnswer → List TestArtifact → Type 0 where
    all_run : {answers : List TestAnswer} → Kept [] answers []
    unchecked :
        {test : SuiteTest} {tests : List SuiteTest} {answer : TestAnswer}
        {answers : List TestAnswer} {artifacts : List TestArtifact} (executor : TestExecutor)
        → HasRun test answer executor
        → test.health_config.enable_checks ≡ false
        → Kept tests answers artifacts
        → Kept (test ∷ tests) (answer ∷ answers) artifacts
    passed :
        {test : SuiteTest} {tests : List SuiteTest} {answer : TestAnswer}
        {answers : List TestAnswer} {a : TestArtifact} {artifacts : List TestArtifact}
        → IsOf test answer a
        → a.test_passed ≡ true
        → Kept tests answers artifacts
        → Kept (test ∷ tests) (answer ∷ answers) (a ∷ artifacts)
    failed :
        {test : SuiteTest} {tests : List SuiteTest} {answer : TestAnswer}
        {answers : List TestAnswer} {a : TestArtifact}
        → IsOf test answer a
        → a.test_passed ≡ false
        → Kept (test ∷ tests) (answer ∷ answers) (a ∷ [])

orchestrate-rounds :
    (checker : CheckOrchestrator) (period : Option Duration) (answer : TestAnswer)
    (results : HealthCheckResult)
    → checker.grace_period ≡ period
    → orchestrate checker answer.checks_start answer.turns ≡ ok results
    → (grace_period : Duration) × (checker.grace_period ≡ some grace_period)
      × (check_rounds checker.checker_impl.pods_under_test_lookup
            (end_of answer.checks_start grace_period)
            none
            (rounds_of checker.checker_impl answer.turns)
          ≡ ok results)
unfolding orchestrate run_checks
orchestrate-rounds checker none answer results g e =
    let bad : crash nil_pointer ≡ ok results = sym (rw (orchestrate, g) refl) ∙ e in cc
orchestrate-rounds checker (some (pos n)) answer results g e =
    (pos n, g, sym (rw (orchestrate, g) refl) ∙ e)
orchestrate-rounds checker (some (negsuc n)) answer results g e =
    (negsuc n, g, sym (rw (orchestrate, g) refl) ∙ e)

is_nil_iff : {A : Type 0} (xs : List A) → (is_nil xs ≡ true) ↔ (xs ≡ [])
is_nil_iff [] = ((λ e. refl), λ e. refl)
is_nil_iff (x ∷ xs) = ((λ e. cc), λ e. cc)

both_iff : (a b : Bool) → ((a && b) ≡ true) ↔ ((a ≡ true) × (b ≡ true))
both_iff a b = ((λ h. ground arith), λ h. ground arith)

IsSilent-iff : (a : BlockConsensusArtifact) → (no_failing_clients a ≡ true) ↔ IsSilent a
unfolding no_failing_clients
IsSilent-iff a =
    let (b₁, b₂) = is_nil_iff a.test_result.failing_clients_reported_block in
    let (h₁, h₂) = is_nil_iff a.test_result.failing_clients_reported_hash in
    let (to, from) =
      both_iff (is_nil a.test_result.failing_clients_reported_block)
        (is_nil a.test_result.failing_clients_reported_hash) in
    ((λ e. let (x, y) = to e in (b₁ x, h₁ y)), λ s. from (b₂ s.0, h₂ s.1))

passed_iff : (r : HealthCheckResult) → (all_checks_passed r ≡ true) ↔ AreSilent r
unfolding all_checks_passed
passed_iff r =
    let (a₁, a₂) = IsSilent-iff r.latest_el_block_result in
    let (b₁, b₂) = IsSilent-iff r.finalized_el_block_result in
    let (c₁, c₂) = IsSilent-iff r.latest_cl_block_result in
    let (d₁, d₂) = IsSilent-iff r.finalized_cl_block_result in
    (
      (λ e. let (a, b, c, d) = four_true _ _ _ _ e in (a₁ a, b₁ b, c₁ c, d₁ d)),
      λ (a, b, c, d). four_hold _ _ _ _ (a₂ a) (b₂ b) (c₂ c) (d₂ d),
    )
  where
    four_true :
        (a b c d : Bool)
        → (a && b && c && d) ≡ true
        → (a ≡ true) × (b ≡ true) × (c ≡ true) × (d ≡ true)
    four_true a b c d h = ground arith

    four_hold :
        (a b c d : Bool) → a ≡ true → b ≡ true → c ≡ true → d ≡ true → (a && b && c && d) ≡ true
    four_hold a b c d p q r s = ground arith

checked-IsResultFor :
    (pods : List PodUnderTest) (test : SuiteTest) (answer : TestAnswer)
    (results : HealthCheckResult)
    → orchestrate (build_health_checker pods test.health_config) answer.checks_start answer.turns
      ≡ ok results
    → IsResultFor pods test answer results
unfolding build_health_checker create_eth_network_checker
checked-IsResultFor pods test answer results e =
    let (grace_period, g, r) =
      orchestrate-rounds (build_health_checker pods test.health_config)
        test.health_config.grace_period answer results refl e in
    (create_eth_network_checker pods, grace_period, refl, refl, g, r)

module _ (api : ChaosApi) (yaml : StepYaml) where
  check_test-cases :
      (test : SuiteTest) (answer : TestAnswer) (executor : TestExecutor) (o : Option TestArtifact)
      → HasRun api yaml test answer executor
      → check_test api yaml test answer executor ≡ ok o
      → ((test.health_config.enable_checks ≡ false) × (o ≡ none))
        ⊎ ((a : TestArtifact) × (o ≡ some a) × IsOf api yaml test answer a)
  unfolding check_test build_test_artifact
  check_test-cases test answer executor o run e =
      elim (Bool-cases test.health_config.enable_checks) [
        | inr n ↦
            let none_made : check_test api yaml test answer executor ≡ ok none =
              rw (check_test, n) refl in
            inl (n, ok-injective (sym e ∙ none_made))
        | inl y ↦
            let checked : (get_pods_under_test executor >>= (λ pods.
              orchestrate (build_health_checker pods test.health_config) answer.checks_start
                answer.turns
              >>= (λ results. ok (some (build_test_artifact results pods test)))))
                ≡ ok o =
              sym (rw (check_test, y) refl) ∙ e in
            let (pods, p, e₁) = ok_of_bind (get_pods_under_test executor) _ checked in
            let (results, r, e₂) =
              ok_of_bind
                (orchestrate (build_health_checker pods test.health_config) answer.checks_start
                  answer.turns)
                _ e₁ in
            inr (
              build_test_artifact results pods test,
              sym (ok-injective e₂),
              (
                executor,
                pods,
                run,
                p,
                y,
                refl,
                refl,
                checked-IsResultFor pods test answer results r,
                passed_iff results,
              ),
            )
      ]

  pub run_tests-Kept :
      (tests : List SuiteTest) (answers : List TestAnswer) (artifacts : List TestArtifact)
      → run_tests api yaml tests answers ≡ ok artifacts
      → Kept api yaml tests answers artifacts
  unfolding run_tests run_test file_artifact
  run_tests-Kept [] answers artifacts e =
      let none_left : [] ≡ artifacts = ok-injective e in
      subst (Kept api yaml [] answers) none_left all_run
  run_tests-Kept (test ∷ tests) [] artifacts e = cc
  run_tests-Kept (test ∷ tests) (answer ∷ answers) artifacts e =
      let ran =
        run_test_plan api yaml answer.steps
          (record { executor = create_test_executor test; pauses = [] }) in
      let (o, t, e₁) = ok_of_bind (run_test api yaml test answer) _ e in
      let (_, done, c) = ok_of_bind (ran.0) _ t in
      let run : HasRun api yaml test answer ran.1.executor =
        (ran.1, ap (λ x. (x, ran.1)) done, refl) in
      elim (check_test-cases test answer ran.1.executor o run c) [
        | inl (n, absent) ↦
            let rest : run_tests api yaml tests answers ≡ ok artifacts =
              sym (ap (λ x. file_artifact api yaml x (run_tests api yaml tests answers)) absent)
              ∙ e₁ in
            unchecked ran.1.executor run n (run_tests-Kept tests answers artifacts rest)
        | inr (a, present, of_test) ↦
            let filed : file_artifact api yaml (some a) (run_tests api yaml tests answers)
                ≡ ok artifacts =
              sym (ap (λ x. file_artifact api yaml x (run_tests api yaml tests answers)) present)
              ∙ e₁ in
            elim (Bool-cases a.test_passed) [
              | inr f ↦
                  let last : a ∷ [] ≡ artifacts = ok-injective (sym (rw f refl) ∙ filed) in
                  subst (Kept api yaml (test ∷ tests) (answer ∷ answers)) last (failed of_test f)
              | inl p ↦
                  let bound : (run_tests api yaml tests answers >>= (λ more. ok (a ∷ more)))
                      ≡ ok artifacts =
                    sym (rw p refl) ∙ filed in
                  let (more, m, e₂) = ok_of_bind (run_tests api yaml tests answers) _ bound in
                  subst (Kept api yaml (test ∷ tests) (answer ∷ answers)) (ok-injective e₂)
                    (passed of_test p (run_tests-Kept tests answers more m))
            ]
      ]
