-- ===== src/Cluster/Forwards.antt =====
-- pkg/kubernetes/port_forward.go. What the libraries and the system answer is an argument; the pause
-- before a retry is left out.
pub mod Retries
use attacknet.Base.{
  ℕ, zero, suc, Bool, true, false, Option, none, some, List, [], ◌∷◌, if◌then◌else◌, String,
  Outcome, ok, err, crash, failure, or_fail, require, closed_channel, out_of_fuel, ◌>>=◌, ◌>>◌,
}
use attacknet.Cluster.Pods.{KubePod, matches_label}

-- The channel that stops the forwarding, by whether it is closed.
pub record PortForwardsSession : Type 0 where
  pub is_stopped : Bool
  pub pod : KubePod
  pub target_port : ℕ
  pub local_port : ℕ

unfoldable pub close : PortForwardsSession → Outcome PortForwardsSession
close session =
    if session.is_stopped then crash closed_channel else ok (record session { is_stopped = true })

-- What one attempt comes to: the forwarder cannot be made, or the channel that the select reads first
-- is that of readiness, that of an error of ForwardPorts, or that of the minute's timeout.
pub data Attempt : Type 0 where
  not_created ready failed timed_out : Attempt

-- An error is retried while retries remain.
unfoldable pub open_port_forward : ℕ → List Attempt → Outcome (Unit {0})
open_port_forward retries [] = crash out_of_fuel
open_port_forward retries (not_created ∷ rest) =
    err (failure "unable to create port forward dialer")
open_port_forward retries (ready ∷ rest) = ok tt
open_port_forward retries (timed_out ∷ rest) =
    err (failure "timed out after waiting to establish port forward")
open_port_forward zero (failed ∷ rest) = err (failure "unable to start port forward session")
open_port_forward (suc retries) (failed ∷ rest) = open_port_forward retries rest

-- The port of a listener that the system opens, if the listener is closed again, if spdy makes a round
-- tripper and url.Parse reads the host, and the attempts.
pub record ForwardAnswer : Type 0 where
  pub listener_port : Option ℕ
  pub is_listener_closed : Bool
  pub has_round_tripper : Bool
  pub is_host_parsed : Bool
  pub attempts : List Attempt

unfoldable pub get_free_ephemeral_port : ForwardAnswer → Outcome ℕ
get_free_ephemeral_port answer = do
  port ← or_fail answer.listener_port "Error while finding new ephemeral port"
  require answer.is_listener_closed "Error while closing listener"
  ok port

unfoldable pub start_port_forwarding : ForwardAnswer → Outcome (Unit {0})
unfolding open_port_forward
start_port_forwarding answer = do
  require answer.has_round_tripper "Unable to create roundtripper"
  require answer.is_host_parsed "unable to decode kubeconfig.Host"
  open_port_forward 5 answer.attempts

-- The loop over the pods, with one answer for each.
unfoldable pub start_multi_port_forwards :
    List KubePod → ℕ → List ForwardAnswer → Outcome (List PortForwardsSession)
unfolding get_free_ephemeral_port start_port_forwarding
start_multi_port_forwards [] target_port answers = ok []
start_multi_port_forwards (pod ∷ pods) target_port [] = crash out_of_fuel
start_multi_port_forwards (pod ∷ pods) target_port (answer ∷ answers) = do
  local_port ← get_free_ephemeral_port answer
  start_port_forwarding answer
  sessions ← start_multi_port_forwards pods target_port answers
  ok (
      record { is_stopped = false; pod = pod; target_port = target_port; local_port = local_port }
      ∷ sessions)

-- The pods that match the label.
unfoldable pub labeled : String → String → List KubePod → List KubePod
unfolding matches_label
labeled key value [] = []
labeled key value (pod ∷ rest) =
    let more = labeled key value rest in if matches_label pod key value then pod ∷ more else more

unfoldable pub start_multi_port_forward_to_labeled_pods :
    List KubePod → String → String → ℕ → List ForwardAnswer → Outcome (List PortForwardsSession)
unfolding start_multi_port_forwards labeled
start_multi_port_forward_to_labeled_pods pods key value target_port answers =
    start_multi_port_forwards (labeled key value pods) target_port answers
