-- ===== src/Tests/Execution.antt =====
-- Two sessions that touch the same pod, a fault that recovers, and the properties of the executor at
-- them.
use attacknet.Base.{true, false, [], ◌∷◌, ok, ◌≡◌, ◌↔◌, refl}
use attacknet.Chaos.Session.{
  FaultSession, PodUnderTest, Cluster, completed, filter_injected_pods, build_pods_under_test_slice,
}
use attacknet.Chaos.Status.{get_status}
use attacknet.Executor.Collect.{TestExecutor, get_pods_under_test}
use attacknet.Executor.Recover.{wait_for_fault_recovery}
use attacknet.Executor.Pods.{firsts, pods_of, get_pods_under_test_lem}
use attacknet.Executor.Recovery.{Recovers, recovery_iff}
use attacknet.Tests.Sessions.{new_session, recovered_record, cluster_with}

abbrev spared_pod : PodUnderTest
spared_pod = record {
  name = "el-02-geth-prysm";
  labels = [];
  expect_death = false;
  touched_by_fault = false;
}

-- The second session kills the pod of the first.
abbrev two_sessions : TestExecutor
two_sessions = record {
  test_name = "two faults";
  plan_steps = [];
  fault_sessions =
      record new_session { pods_under_test = spared_pod ∷ [] }
      ∷ record new_session { pods_under_test = record spared_pod { expect_death = true } ∷ [] }
      ∷ [];
  plan_completed = true;
}

get_pods_under_test_lem_example :
    get_pods_under_test two_sessions ≡ ok (firsts [] (pods_of two_sessions.fault_sessions))
get_pods_under_test_lem_example = get_pods_under_test_lem two_sessions refl

merge_is_lost : firsts [] (pods_of two_sessions.fault_sessions) ≡ spared_pod ∷ []
merge_is_lost = refl

abbrev recovering : Cluster
recovering = cluster_with (recovered_record ∷ [])

abbrev last_session : FaultSession
last_session = (get_status new_session recovering).1

fault_recovers : (get_status new_session recovering).0 ≡ ok completed
unfolding get_status filter_injected_pods build_pods_under_test_slice
fault_recovers = refl

recovery_iff_example :
    (wait_for_fault_recovery new_session (recovering ∷ []) ≡ (ok tt, last_session))
    ↔ Recovers new_session (recovering ∷ []) last_session
recovery_iff_example = recovery_iff new_session last_session (recovering ∷ [])
