-- ===== src/Health/Dials/Reached.antt =====
-- Which clients the health checks of pkg/health/ethereum reach, and on which ports.
use attacknet.Base.{
  ℕ, ◌≡◌, inl, inr, refl, sym, ap, ◌∙◌, subst, Bool, true, false, Option, Option-cases, some, List,
  [], ◌∷◌, ◌++◌, map, All, All-append, Bool-cases, String, ok, or_fail, ok_of_bind, ok-injective,
  some_of_or_fail,
}
use attacknet.Base.Dict.{Dict, lookup, has_key}
use attacknet.Base.Text.{◌++◌ as append, contains}
use attacknet.Chaos.Session
use attacknet.Chaos.Session.{PodUnderTest}
use attacknet.Cluster.Pods
use attacknet.Cluster.Pods.{KubePod, to_kube_pod, pods_matching_label}
use attacknet.Cluster.Forwards.{
  PortForwardsSession, ForwardAnswer, get_free_ephemeral_port, start_port_forwarding,
  start_multi_port_forwards, labeled, start_multi_port_forward_to_labeled_pods,
}
use attacknet.Health.Targets.{
  EthNetworkChecker, surviving_targets, bystanders_of, get_pods_to_health_check,
}
use attacknet.Health.Dials.{
  label_key, BeaconDial, dial_beacon_rpc_client, dial_beacon_rpc_clients, batch,
  dial_to_beacon_clients,
}

-- A session for each pod in order, on the port.
abbrev pub ForwardTo : ℕ → List KubePod → List PortForwardsSession → Type 0
ForwardTo port [] [] = Unit
ForwardTo port (pod ∷ pods) (s ∷ sessions) =
    ((s.pod ≡ pod) × (s.target_port ≡ port)) × ForwardTo port pods sessions
ForwardTo port _ _ = ⊥

start_multi-ForwardTo :
    (pods : List KubePod) (port : ℕ) (answers : List ForwardAnswer)
    (sessions : List PortForwardsSession)
    → start_multi_port_forwards pods port answers ≡ ok sessions
    → ForwardTo port pods sessions
unfolding start_multi_port_forwards
start_multi-ForwardTo [] port answers sessions e = subst (ForwardTo port []) (ok-injective e) tt
start_multi-ForwardTo (pod ∷ pods) port [] sessions e = cc
start_multi-ForwardTo (pod ∷ pods) port (answer ∷ answers) sessions e =
    let (local, _, e₁) = ok_of_bind (get_free_ephemeral_port answer) _ e in
    let (_, _, e₂) = ok_of_bind (start_port_forwarding answer) _ e₁ in
    let (more, m, e₃) = ok_of_bind (start_multi_port_forwards pods port answers) _ e₂ in
    subst (ForwardTo port (pod ∷ pods)) (ok-injective e₃)
      ((refl, refl), start_multi-ForwardTo pods port answers more m)

-- The label filter of the port forwards keeps pods that match the label.
abbrev pub AllMatch : String → String → List KubePod → Type 0
AllMatch key value pods = All (λ (pod : KubePod). Pods.matches_label pod key value ≡ true) pods

labeled_lem :
    (key value : String) (pods : List KubePod)
    → AllMatch key value pods
    → labeled key value pods ≡ pods
unfolding labeled
labeled_lem key value [] h = refl
labeled_lem key value (pod ∷ rest) h =
    simp (labeled, h.0) (ap (◌∷◌ pod) (labeled_lem key value rest h.1))

batch-AllMatch :
    (key value : String) (b : Bool) (pods : List KubePod)
    → AllMatch key value pods
    → AllMatch key value (batch b pods)
unfolding batch
batch-AllMatch key value b [] h = tt
batch-AllMatch key value true (pod ∷ rest) h = elim (Bool-cases (contains pod.name "prysm")) [
  | inl c ↦ simp (batch, c) (h.0, batch-AllMatch key value true rest h.1)
  | inr c ↦ simp (batch, c) (batch-AllMatch key value true rest h.1)
]
batch-AllMatch key value false (pod ∷ rest) h = elim (Bool-cases (contains pod.name "prysm")) [
  | inl c ↦ simp (batch, c) (batch-AllMatch key value false rest h.1)
  | inr c ↦ simp (batch, c) (h.0, batch-AllMatch key value false rest h.1)
]

bystanders-AllMatch :
    (key value : String) (under_test : Dict PodUnderTest) (pods : List KubePod)
    → AllMatch key value pods
    → AllMatch key value (bystanders_of under_test pods)
unfolding bystanders_of
bystanders-AllMatch key value under_test [] h = tt
bystanders-AllMatch key value under_test (pod ∷ rest) h =
    elim (Bool-cases (has_key pod.name under_test)) [
      | inl c ↦ simp (bystanders_of, c) (bystanders-AllMatch key value under_test rest h.1)
      | inr c ↦ simp (bystanders_of, c) (h.0, bystanders-AllMatch key value under_test rest h.1)
    ]

same_label :
    (pod : PodUnderTest) (key value : String)
    → Session.matches_label pod key value ≡ Pods.matches_label (to_kube_pod pod) key value
unfolding Session.matches_label Pods.matches_label
same_label pod key value = elim (Option-cases (lookup key pod.labels)) [
  | inl n ↦ simp (Session.matches_label, Pods.matches_label, n) refl
  | inr (v, n) ↦ simp (Session.matches_label, Pods.matches_label, n) refl
]

surviving-AllMatch :
    (key value : String) (pods : List PodUnderTest)
    → AllMatch key value (surviving_targets key value pods)
unfolding surviving_targets
surviving-AllMatch key value [] = tt
surviving-AllMatch key value (pod ∷ rest) =
    let ih = surviving-AllMatch key value rest in
    elim (Bool-cases (Session.matches_label pod key value)) [
      | inl m ↦ elim (Bool-cases pod.expect_death) [
        | inl d ↦ simp (surviving_targets, m, d) ih
        | inr d ↦ simp (surviving_targets, m, d) (sym (same_label pod key value) ∙ m, ih)
      ]
      | inr m ↦ simp (surviving_targets, m) ih
    ]

copies-AllMatch :
    (key value : String) (pods : List KubePod)
    → AllMatch key value pods
    → AllMatch key value
        (map (λ (pod : KubePod). record { name = pod.name; labels = pod.labels }) pods)
copies-AllMatch key value [] h = tt
copies-AllMatch key value (pod ∷ rest) h = (h.0, copies-AllMatch key value rest h.1)

-- If the API server lists only pods with the label, all pods to check have it.
pub checked-AllMatch :
    (list_pods : String → Option (List KubePod)) (e : EthNetworkChecker) (key value : String)
    (pods : List KubePod)
    → ((listed : List KubePod)
        → list_pods (append key (append "=" value)) ≡ some listed
        → AllMatch key value listed)
    → get_pods_to_health_check list_pods e key value ≡ ok pods
    → AllMatch key value pods
unfolding get_pods_to_health_check pods_matching_label
checked-AllMatch list_pods e key value pods selects h =
    let (bystanders, b, h₁) = ok_of_bind (pods_matching_label list_pods key value) _ h in
    let (listed, l, h₂) =
      ok_of_bind (or_fail (list_pods (append key (append "=" value))) "unable to list pods") _ b in
    let all = copies-AllMatch key value listed (selects listed (some_of_or_fail _ _ l)) in
    let all' = subst (AllMatch key value) (ok-injective h₂) all in
    subst (AllMatch key value) (ok-injective h₁) (
      All-append (λ (pod : KubePod). Pods.matches_label pod key value ≡ true)
        (surviving_targets key value e.pods_under_test)
        (bystanders_of e.pods_under_test_lookup bystanders)
        (surviving-AllMatch key value e.pods_under_test)
        (bystanders-AllMatch key value e.pods_under_test_lookup bystanders all'))

dialed_lem :
    (sessions clients : List PortForwardsSession) (dials : List (List BeaconDial))
    → dial_beacon_rpc_clients sessions dials ≡ ok clients
    → sessions ≡ clients
unfolding dial_beacon_rpc_clients
dialed_lem [] clients dials e = ok-injective e
dialed_lem (session ∷ rest) clients [] e = cc
dialed_lem (session ∷ rest) clients (dial ∷ dials) e =
    let (_, _, e₁) = ok_of_bind (dial_beacon_rpc_client 8 dial) _ e in
    let (more, m, e₂) = ok_of_bind (dial_beacon_rpc_clients rest dials) _ e₁ in
    ap (◌∷◌ session) (dialed_lem rest more dials m) ∙ ok-injective e₂

pub labeled_sessions :
    (pods : List KubePod) (value : String) (port : ℕ) (answers : List ForwardAnswer)
    (sessions : List PortForwardsSession)
    → AllMatch label_key value pods
    → start_multi_port_forward_to_labeled_pods pods label_key value port answers ≡ ok sessions
    → ForwardTo port pods sessions
unfolding start_multi_port_forward_to_labeled_pods
labeled_sessions pods value port answers sessions all e =
    start_multi-ForwardTo pods port answers sessions (
      ap (λ ps. start_multi_port_forwards ps port answers)
        (sym (labeled_lem label_key value pods all))
      ∙ e)

-- Each pod is in order either among those whose names hold "prysm" or among the others.
pub data IsSplit : List KubePod → List KubePod → List KubePod → Type 0 where
  none_left : IsSplit [] [] []
  on_prysm :
      {pod : KubePod} {pods prysm others : List KubePod}
      → contains pod.name "prysm" ≡ true
      → IsSplit pods prysm others
      → IsSplit (pod ∷ pods) (pod ∷ prysm) others
  on_other :
      {pod : KubePod} {pods prysm others : List KubePod}
      → contains pod.name "prysm" ≡ false
      → IsSplit pods prysm others
      → IsSplit (pod ∷ pods) prysm (pod ∷ others)

batch-IsSplit : (pods : List KubePod) → IsSplit pods (batch true pods) (batch false pods)
unfolding batch
batch-IsSplit [] = none_left
batch-IsSplit (pod ∷ rest) = elim (Bool-cases (contains pod.name "prysm")) [
  | inl c ↦ simp (batch, c) (on_prysm c (batch-IsSplit rest))
  | inr c ↦ simp (batch, c) (on_other c (batch-IsSplit rest))
]

-- If the API server lists for a selector only pods with its label: when the beacon clients are dialled,
-- there is one client for each pod to check and no other, first those whose names hold "prysm", on port
-- 3500, and then the rest, on port 4000, each in the order of the pods to check.
pub dial_to_beacon_clients_lem :
    (list_pods : String → Option (List KubePod)) (e : EthNetworkChecker)
    (forwards3500 forwards4000 : List ForwardAnswer) (dials : List (List BeaconDial))
    (clients : List PortForwardsSession)
    → ((listed : List KubePod)
        → list_pods (append label_key (append "=" "beacon")) ≡ some listed
        → AllMatch label_key "beacon" listed)
    → dial_to_beacon_clients list_pods e forwards3500 forwards4000 dials ≡ ok clients
    → (pods prysm_pods other_pods : List KubePod) × (prysm others : List PortForwardsSession)
      × (get_pods_to_health_check list_pods e label_key "beacon" ≡ ok pods)
      × IsSplit pods prysm_pods other_pods
      × (clients ≡ prysm ++ others)
      × ForwardTo 3500 prysm_pods prysm
      × ForwardTo 4000 other_pods others
unfolding dial_to_beacon_clients
dial_to_beacon_clients_lem list_pods e forwards3500 forwards4000 dials clients selects h =
    let (pods, p, h₁) = ok_of_bind (get_pods_to_health_check list_pods e label_key "beacon") _ h in
    let all = checked-AllMatch list_pods e label_key "beacon" pods selects p in
    let (prysm, a, h₂) =
      ok_of_bind
        (start_multi_port_forward_to_labeled_pods (batch true pods) label_key "beacon" 3500
          forwards3500)
        _ h₁ in
    let (others, b, h₃) =
      ok_of_bind
        (start_multi_port_forward_to_labeled_pods (batch false pods) label_key "beacon" 4000
          forwards4000)
        _ h₂ in
    (
      pods,
      batch true pods,
      batch false pods,
      prysm,
      others,
      p,
      batch-IsSplit pods,
      sym (dialed_lem (prysm ++ others) clients dials h₃),
      labeled_sessions (batch true pods) "beacon" 3500 forwards3500 prysm
          (batch-AllMatch label_key "beacon" true pods all) a,
      labeled_sessions (batch false pods) "beacon" 4000 forwards4000 others
          (batch-AllMatch label_key "beacon" false pods all) b,
    )
