-- ===== src/Executor/Collect.antt =====
-- GetPodsUnderTest of pkg/test_executor/executor.go.
use attacknet.Base.{
  Bool, not, ◌&&◌, ◌||◌, none, some, List, [], ◌∷◌, ◌++◌, if◌then◌else◌, String, Outcome, ok, err,
  failure,
}
use attacknet.Base.Dict.{Dict, lookup, insert}
use attacknet.Types.{PlanStep}
use attacknet.Chaos.Session.{PodUnderTest, FaultSession}

-- The client of chaos-mesh is an argument of the methods that call it.
pub record TestExecutor : Type 0 where
  pub test_name : String
  pub plan_steps : List PlanStep
  pub fault_sessions : List FaultSession
  pub plan_completed : Bool

-- The copy that the map holds is what a later session changes; the pod that was returned is another
-- object.
unfoldable pub merge_pod : PodUnderTest → PodUnderTest → PodUnderTest
merge_pod pod val = record val {
  expect_death = val.expect_death || (pod.expect_death && not val.expect_death);
  touched_by_fault = val.touched_by_fault || (pod.touched_by_fault && not val.touched_by_fault);
}

unfoldable pub collect_pod :
    PodUnderTest → Dict PodUnderTest × List PodUnderTest → Dict PodUnderTest × List PodUnderTest
unfolding merge_pod lookup insert
collect_pod pod (pods, ret_pods) = elim (lookup pod.name pods) [
  | none ↦ (insert pod.name pod pods, ret_pods ++ pod ∷ [])
  | some val ↦ (insert pod.name (merge_pod pod val) pods, ret_pods)
]

-- The loop over the pods of one session.
unfoldable pub collect_pods :
    List PodUnderTest
    → Dict PodUnderTest × List PodUnderTest
    → Dict PodUnderTest × List PodUnderTest
unfolding collect_pod
collect_pods [] state = state
collect_pods (pod ∷ rest) state = collect_pods rest (collect_pod pod state)

-- The loop over the sessions.
unfoldable pub collect_sessions :
    List FaultSession
    → Dict PodUnderTest × List PodUnderTest
    → Dict PodUnderTest × List PodUnderTest
unfolding collect_pods
collect_sessions [] state = state
collect_sessions (f ∷ rest) state = collect_sessions rest (collect_pods f.pods_under_test state)

unfoldable pub get_pods_under_test : TestExecutor → Outcome (List PodUnderTest)
unfolding collect_sessions
get_pods_under_test te =
    if te.plan_completed
    then ok (collect_sessions te.fault_sessions ([], [])).1
    else err (failure "test has not been executed yet. cannot determine pods under test")
