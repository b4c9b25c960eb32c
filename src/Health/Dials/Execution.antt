-- ===== src/Health/Dials/Execution.antt =====
-- Which execution clients dialToExecutionClients of pkg/health/ethereum/execution_rpc.go reaches.
use attacknet.Base.{
  ◌≡◌, ap, ◌∙◌, subst, Bool, Option, some, List, [], ◌∷◌, String, ok, require, ok_of_bind,
  ok-injective,
}
use attacknet.Base.Text.{◌++◌ as append}
use attacknet.Cluster.Pods.{KubePod}
use attacknet.Cluster.Forwards.{
  PortForwardsSession, ForwardAnswer, start_multi_port_forward_to_labeled_pods,
}
use attacknet.Health.Targets.{EthNetworkChecker, get_pods_to_health_check}
use attacknet.Health.Dials.{label_key, dial_exec_rpc_clients, dial_to_execution_clients}
use attacknet.Health.Dials.Reached.{AllMatch, ForwardTo, checked-AllMatch, labeled_sessions}

dialed_lem :
    (sessions clients : List PortForwardsSession) (dials : List Bool)
    → dial_exec_rpc_clients sessions dials ≡ ok clients
    → sessions ≡ clients
unfolding dial_exec_rpc_clients
dialed_lem [] clients dials e = ok-injective e
dialed_lem (session ∷ rest) clients [] e = cc
dialed_lem (session ∷ rest) clients (dial ∷ dials) e =
    let (_, _, e₁) = ok_of_bind (require dial "err while dialing RPC") _ e in
    let (more, m, e₂) = ok_of_bind (dial_exec_rpc_clients rest dials) _ e₁ in
    ap (◌∷◌ session) (dialed_lem rest more dials m) ∙ ok-injective e₂

-- If the API server lists for a selector only pods with its label: when the execution clients are
-- dialled, there is one client for each pod to check and no other, in their order, on port 8545.
pub dial_to_execution_clients_lem :
    (list_pods : String → Option (List KubePod)) (e : EthNetworkChecker)
    (forwards : List ForwardAnswer) (dials : List Bool) (clients : List PortForwardsSession)
    → ((listed : List KubePod)
        → list_pods (append label_key (append "=" "execution")) ≡ some listed
        → AllMatch label_key "execution" listed)
    → dial_to_execution_clients list_pods e forwards dials ≡ ok clients
    → (pods : List KubePod) × (get_pods_to_health_check list_pods e label_key "execution" ≡ ok pods)
      × ForwardTo 8545 pods clients
unfolding dial_to_execution_clients
dial_to_execution_clients_lem list_pods e forwards dials clients selects h =
    let (pods, p, h₁) =
      ok_of_bind (get_pods_to_health_check list_pods e label_key "execution") _ h in
    let all = checked-AllMatch list_pods e label_key "execution" pods selects p in
    let (sessions, s, h₂) =
      ok_of_bind (start_multi_port_forward_to_labeled_pods pods label_key "execution" 8545 forwards)
        _ h₁ in
    (
      pods,
      p,
      subst (ForwardTo 8545 pods) (dialed_lem sessions clients dials h₂)
          (labeled_sessions pods "execution" 8545 forwards sessions all s),
    )
