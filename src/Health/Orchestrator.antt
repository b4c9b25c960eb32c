-- ===== src/Health/Orchestrator.antt =====
-- The whole of RunAllChecks of pkg/health/ethereum/network_checker.go, from dialling the clients to the
-- four consensus tests, and CheckOrchestrator of pkg/health/checker.go around it.
pub mod Agree
pub mod Passed
use attacknet.Base.{
  ℕ, suc, ◌-◌, Bool, Option, none, some, List, [], ◌∷◌, map, String, Outcome, ok, err, crash,
  nil_pointer, ◌>>=◌,
}
use attacknet.Base.Int.{ℤ, pos, negsuc}
use attacknet.Golang.Duration.{Duration}
use attacknet.Types.{HealthCheckConfig}
use attacknet.Chaos.Session.{PodUnderTest}
use attacknet.Cluster.Pods.{KubePod}
use attacknet.Cluster.Forwards.{PortForwardsSession, ForwardAnswer}
use attacknet.Health.Votes.{Groups}
use attacknet.Health.Clients.{ExecAnswer, BeaconAnswer}
use attacknet.Health.Targets.{EthNetworkChecker, create_eth_network_checker}
use attacknet.Health.Dials.{BeaconDial, dial_to_execution_clients, dial_to_beacon_clients}
use attacknet.Health.Consensus.{Asked, get_exec_block_consensus, get_beacon_client_consensus}
use attacknet.Health.Checks.{HealthCheckResult}
use attacknet.Health.Checks.Rounds.{Answer, fails, panics, answers, Round, run_checks, check_rounds}

-- What the client of each pod answers in one attempt, with the orders of the maps.
pub record Replies (A : Type 0) : Type 0 where
  pub reply : String → A
  pub number_order : Groups ℕ → Groups ℕ
  pub hash_order : Groups String → Groups String

abbrev pub answers_from : {A : Type 0} → List PortForwardsSession → Replies A → List (String × A)
answers_from clients replies =
    map (λ (client : PortForwardsSession). (client.pod.name, replies.reply client.pod.name)) clients

unfoldable pub asked : {A : Type 0} → List PortForwardsSession → List (Replies A) → List (Asked A)
asked clients [] = []
asked clients (replies ∷ rest) =
    record {
      answers = answers_from clients replies;
      number_order = replies.number_order;
      hash_order = replies.hash_order;
    }
    ∷ asked clients rest

-- What the cluster and the clients answer in one call, and the seconds since the start of the checks when
-- each test's result is converted. The pods are listed twice.
pub record Inquiry : Type 0 where
  pub exec_pods : String → Option (List KubePod)
  pub exec_forwards : List ForwardAnswer
  pub exec_dials : List Bool
  pub beacon_pods : String → Option (List KubePod)
  pub beacon_forwards3500 : List ForwardAnswer
  pub beacon_forwards4000 : List ForwardAnswer
  pub beacon_dials : List (List BeaconDial)
  pub latest_el : List (Replies ExecAnswer)
  pub finalized_el : List (Replies ExecAnswer)
  pub latest_cl : List (Replies BeaconAnswer)
  pub finalized_cl : List (Replies BeaconAnswer)
  pub seconds : ℤ × ℤ × ℤ × ℤ

unfoldable pub ask_clients : EthNetworkChecker → Inquiry → Outcome Answer
unfolding dial_to_execution_clients dial_to_beacon_clients get_exec_block_consensus
    get_beacon_client_consensus asked
ask_clients e q = do
  exec ← dial_to_execution_clients q.exec_pods e q.exec_forwards q.exec_dials
  beacon ←
      dial_to_beacon_clients q.beacon_pods e q.beacon_forwards3500 q.beacon_forwards4000
        q.beacon_dials
  latest_el ← get_exec_block_consensus 15 (asked exec q.latest_el)
  finalized_el ← get_exec_block_consensus 3 (asked exec q.finalized_el)
  latest_cl ← get_beacon_client_consensus "head" 15 (asked beacon q.latest_cl)
  finalized_cl ← get_beacon_client_consensus "finalized" 3 (asked beacon q.finalized_cl)
  let (s₁, s₂, s₃, s₄) = q.seconds
  ok (
      answers (record { result = latest_el; seconds = s₁ })
        (record { result = finalized_el; seconds = s₂ })
        (record { result = latest_cl; seconds = s₃ })
        (record { result = finalized_cl; seconds = s₄ }))

abbrev pub answer_of : Outcome Answer → Answer
answer_of (ok answer) = answer
answer_of (err e) = fails e
answer_of (crash c) = panics c

-- The answers in one turn of the loop of RunChecks, and the time that is read at its end.
pub record CheckTurn : Type 0 where
  pub inquiry : Inquiry
  pub now : ℕ

unfoldable pub rounds_of : EthNetworkChecker → List CheckTurn → List Round
unfolding ask_clients
rounds_of e [] = []
rounds_of e (turn ∷ turns) =
    record { answer = answer_of (ask_clients e turn.inquiry); now = turn.now } ∷ rounds_of e turns

pub record CheckOrchestrator : Type 0 where
  pub checker_impl : EthNetworkChecker
  pub grace_period : Option Duration

-- The kind of network is always "ethereum".
unfoldable pub build_health_checker : List PodUnderTest → HealthCheckConfig → CheckOrchestrator
unfolding create_eth_network_checker
build_health_checker pods config = record {
  checker_impl = create_eth_network_checker pods;
  grace_period = config.grace_period;
}

-- RunChecks of the orchestrator; it reads a grace period that is nil. The clock's zero is before any
-- time at which the checks start or end.
unfoldable pub orchestrate : CheckOrchestrator → ℕ → List CheckTurn → Outcome HealthCheckResult
unfolding rounds_of run_checks check_rounds
orchestrate hc start turns = elim hc.grace_period [
  | none ↦ crash nil_pointer
  | some (pos n) ↦
      run_checks hc.checker_impl.pods_under_test_lookup start n (rounds_of hc.checker_impl turns)
  | some (negsuc n) ↦
      check_rounds hc.checker_impl.pods_under_test_lookup (start - suc n) none
        (rounds_of hc.checker_impl turns)
]
