-- ===== src/Executor/Recover.antt =====
-- waitForFaultRecovery of pkg/test_executor/executor.go. The answers of the cluster come as a list, one
-- for each time that the status is read; a loop that needs more of them ends in `out_of_fuel`.
-- Sleeping is left out.
use attacknet.Base.{List, [], ◌∷◌, ok, err, crash, failure, out_of_fuel}
use attacknet.Chaos.Session.{
  FaultStatus, starting, in_progress, stopping, completed, error, Cluster, FaultSession, Stepped,
  after,
}
use attacknet.Chaos.Status.{get_status}

-- The switch on the status; `again` is the next turn.
abbrev pub recovery_turn : FaultStatus → FaultSession → Stepped (Unit {0}) → Stepped (Unit {0})
recovery_turn in_progress f again = again
recovery_turn stopping f again = again
recovery_turn error f again = (
  err (failure "there was an unspecified error returned by chaos-mesh. inspect the fault resource"),
  f,
)
recovery_turn completed f again = (ok tt, f)
recovery_turn starting f again = (err (failure "unknown chaos session state"), f)

unfoldable pub wait_for_fault_recovery : FaultSession → List Cluster → Stepped (Unit {0})
wait_for_fault_recovery f [] = (crash out_of_fuel, f)
wait_for_fault_recovery f (cluster ∷ rest) =
    after (get_status f cluster)
      (λ status f'. recovery_turn status f' (wait_for_fault_recovery f' rest))
