-- ===== src/Health/Orchestrator/Passed.antt =====
-- What the health checks of pkg/health have seen when all of them pass.
use attacknet.Base.{
  ◌≡◌, refl, ap, ◌∙◌, subst, true, Option, none, some, List, All, Outcome, ok, err, crash,
  ok_of_bind, ok-injective, arith,
}
use attacknet.Base.Dict.{Dict}
use attacknet.Chaos.Session.{PodUnderTest}
use attacknet.Cluster.Forwards.{PortForwardsSession}
use attacknet.Health.Clients.{exec_latest_block, beacon_latest_block}
use attacknet.Health.Targets.{EthNetworkChecker}
use attacknet.Health.Dials.{dial_to_execution_clients, dial_to_beacon_clients}
use attacknet.Health.Consensus.{get_exec_block_consensus, get_beacon_client_consensus}
use attacknet.Health.Checks.{
  HealthCheckResult, no_failing_clients, all_checks_passed, convert_result_to_artifact,
}
use attacknet.Health.Checks.Rounds.{
  Reading, Answer, fails, panics, answers, to_artifact, run_all_checks,
}
use attacknet.Health.Orchestrator.{asked, Inquiry, ask_clients, answer_of}
use attacknet.Health.Orchestrator.Agree.{IsFair, Agree, is_clean, exec-Agree, beacon-Agree}

-- The orders of all attempts only rearrange.
abbrev pub AreFair : Inquiry → Type 0
AreFair q =
    All IsFair q.latest_el
    × All IsFair q.finalized_el
    × All IsFair q.latest_cl
    × All IsFair q.finalized_cl

answers-injective :
    {a b c d a' b' c' d' : Reading}
    → answers a b c d ≡ answers a' b' c' d'
    → (a ≡ a') × (b ≡ b') × (c ≡ c') × (d ≡ d')
answers-injective e = (cc, cc, cc, cc)

-- The results of the four tests of a call that gives answers.
asked_parts :
    (e : EthNetworkChecker) (q : Inquiry) (a b c d : Reading)
    → ask_clients e q ≡ ok (answers a b c d)
    → (exec beacon : List PortForwardsSession) × (dial_to_execution_clients q.exec_pods e
          q.exec_forwards q.exec_dials
        ≡ ok exec)
      × (dial_to_beacon_clients q.beacon_pods e q.beacon_forwards3500 q.beacon_forwards4000
            q.beacon_dials
          ≡ ok beacon)
      × (get_exec_block_consensus 15 (asked exec q.latest_el) ≡ ok a.result)
      × (get_exec_block_consensus 3 (asked exec q.finalized_el) ≡ ok b.result)
      × (get_beacon_client_consensus "head" 15 (asked beacon q.latest_cl) ≡ ok c.result)
      × (get_beacon_client_consensus "finalized" 3 (asked beacon q.finalized_cl) ≡ ok d.result)
unfolding ask_clients
asked_parts e q a b c d h =
    let (exec, h₁, k₁) =
      ok_of_bind (dial_to_execution_clients q.exec_pods e q.exec_forwards q.exec_dials) _ h in
    let (beacon, h₂, k₂) =
      ok_of_bind
        (dial_to_beacon_clients q.beacon_pods e q.beacon_forwards3500 q.beacon_forwards4000
          q.beacon_dials)
        _ k₁ in
    let (r₁, h₃, k₃) = ok_of_bind (get_exec_block_consensus 15 (asked exec q.latest_el)) _ k₂ in
    let (r₂, h₄, k₄) = ok_of_bind (get_exec_block_consensus 3 (asked exec q.finalized_el)) _ k₃ in
    let (r₃, h₅, k₅) =
      ok_of_bind (get_beacon_client_consensus "head" 15 (asked beacon q.latest_cl)) _ k₄ in
    let (r₄, h₆, k₆) =
      ok_of_bind (get_beacon_client_consensus "finalized" 3 (asked beacon q.finalized_cl)) _ k₅ in
    let (a', b', c', d') = answers-injective (ok-injective k₆) in
    (
      exec,
      beacon,
      h₁,
      h₂,
      h₃ ∙ ap (λ (x : Reading). ok x.result) a',
      h₄ ∙ ap (λ (x : Reading). ok x.result) b',
      h₅ ∙ ap (λ (x : Reading). ok x.result) c',
      h₆ ∙ ap (λ (x : Reading). ok x.result) d',
    )

-- The artifacts of a call pass only if the results of the four tests report no client.
abbrev AreClean : HealthCheckResult → Reading → Reading → Reading → Reading → Type 0
AreClean r a b c d =
    all_checks_passed r ≡ true
    → (is_clean a.result ≡ true)
      × (is_clean b.result ≡ true)
      × (is_clean c.result ≡ true)
      × (is_clean d.result ≡ true)

made-AreClean :
    (under_test : Dict PodUnderTest) (prev : Option HealthCheckResult) (r : HealthCheckResult)
    (a b c d : Reading)
    → run_all_checks under_test prev (answers a b c d) ≡ ok r
    → AreClean r a b c d
unfolding run_all_checks to_artifact all_checks_passed no_failing_clients convert_result_to_artifact
made-AreClean under_test none r a b c d h =
    subst (λ x. AreClean x a b c d) (ok-injective h)
      (λ p. (ground (arith, p), ground (arith, p), ground (arith, p), ground (arith, p)))
made-AreClean under_test (some prev) r a b c d h =
    subst (λ x. AreClean x a b c d) (ok-injective h)
      (λ p. (ground (arith, p), ground (arith, p), ground (arith, p), ground (arith, p)))

given_answers :
    (under_test : Dict PodUnderTest) (prev : Option HealthCheckResult) (r : HealthCheckResult)
    (o : Outcome Answer)
    → run_all_checks under_test prev (answer_of o) ≡ ok r
    → (a b c d : Reading) × (o ≡ ok (answers a b c d)) × AreClean r a b c d
unfolding run_all_checks
given_answers under_test prev r (ok (answers a b c d)) h =
    (a, b, c, d, refl, made-AreClean under_test prev r a b c d h)
given_answers under_test prev r (ok (fails e)) h = cc
given_answers under_test prev r (ok (panics c)) h = cc
given_answers under_test prev r (err e) h = cc
given_answers under_test prev r (crash c) h = cc

-- If the orders of the maps only rearrange them: when all checks of a call pass, the clients that it
-- dialled agree in each of the four tests, that is, in one of the test's attempts every execution
-- client, or every beacon client, votes for the same block number and the same hash.
pub run_all_checks-Agree :
    (under_test : Dict PodUnderTest) (prev : Option HealthCheckResult) (e : EthNetworkChecker)
    (q : Inquiry) (r : HealthCheckResult)
    → AreFair q
    → run_all_checks under_test prev (answer_of (ask_clients e q)) ≡ ok r
    → all_checks_passed r ≡ true
    → (exec beacon : List PortForwardsSession) × (dial_to_execution_clients q.exec_pods e
          q.exec_forwards q.exec_dials
        ≡ ok exec)
      × (dial_to_beacon_clients q.beacon_pods e q.beacon_forwards3500 q.beacon_forwards4000
            q.beacon_dials
          ≡ ok beacon)
      × Agree exec_latest_block exec q.latest_el
      × Agree exec_latest_block exec q.finalized_el
      × Agree (beacon_latest_block "head") beacon q.latest_cl
      × Agree (beacon_latest_block "finalized") beacon q.finalized_cl
run_all_checks-Agree under_test prev e q r (f₁, f₂, f₃, f₄) h passed =
    let (a, b, c, d, answered, clean) = given_answers under_test prev r (ask_clients e q) h in
    let (exec, beacon, dial₁, dial₂, t₁, t₂, t₃, t₄) = asked_parts e q a b c d answered in
    let (c₁, c₂, c₃, c₄) = clean passed in
    (
      exec,
      beacon,
      dial₁,
      dial₂,
      exec-Agree exec 15 q.latest_el a.result f₁ t₁ c₁,
      exec-Agree exec 3 q.finalized_el b.result f₂ t₂ c₂,
      beacon-Agree "head" beacon 15 q.latest_cl c.result f₃ t₃ c₃,
      beacon-Agree "finalized" beacon 3 q.finalized_cl d.result f₄ t₄ c₄,
    )
