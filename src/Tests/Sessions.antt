-- ===== src/Tests/Sessions.antt =====
-- A fault session that is read twice, and the properties of sessions at it.
use attacknet.Base.{true, false, some, List, [], ◌∷◌, ok, crash, unreachable_state, ◌≡◌, refl}
use attacknet.Base.Dict.{insert, has_key, lookup}
use attacknet.Base.Int.{pos, ◌+ℤ◌}
use attacknet.Base.Text.{split}
use attacknet.Golang.Duration.{parse_duration}
use attacknet.Types.{Fields, end, field, text, table}
use attacknet.Chaos.Session.{
  FaultSession, ChaosRecord, Cluster, new_fault_session, filter_injected_pods,
  build_pods_under_test_slice,
}
use attacknet.Chaos.Status.{get_status}
use attacknet.Chaos.Status.Report.{IsReport, status-IsReport}
use attacknet.Chaos.Status.Sound.{IsSound}
use attacknet.Chaos.Status.History.{started, polled, reachable-IsSound}

abbrev latency_spec : Fields
latency_spec =
    field "kind" (text "NetworkChaos")
      (field "spec" (table (field "action" (text "delay") end)) end)

-- A pod that is injected, and one event that says that it failed to recover.
abbrev pub failing_record : ChaosRecord
failing_record = record {
  id = "kt-geth/el-02-geth-prysm/el";
  phase = "Injected";
  injected_count = 1;
  recovered_count = 0;
  events = record { is_failed = true; is_recover = true; message = "exit status 1" } ∷ [];
}

-- The same pod when it has recovered after all.
abbrev pub recovered_record : ChaosRecord
recovered_record = record failing_record { phase = "Not Injected"; recovered_count = 1 }

abbrev pub cluster_with : List ChaosRecord → Cluster
cluster_with records = record {
  resource = some (record {
    conditions = some (record { is_selected = true; is_true = true } ∷ []);
    records = some records;
    duration = some "1m";
  });
  pod_labels = λ pod. some (some []);
}

abbrev pub new_session : FaultSession
new_session = record {
  fault_type = "NetworkChaos";
  fault_action = "delay";
  fault_spec = field "action" (text "delay") end;
  name = "fault-1";
  pods_failing_recovery = [];
  checked_for_missing_pods = false;
  pods_expected_missing = 0;
  test_start_time = pos 5;
  test_duration = some (pos 60000000000);
  test_end_time = some (pos 60000000005);
  target_selection_completed = false;
  pods_under_test = [];
}

abbrev pub failing_session : FaultSession
failing_session = (get_status new_session (cluster_with (failing_record ∷ []))).1

session_starts : new_fault_session (pos 5) (cluster_with []) latency_spec "fault-1" ≡ ok new_session
unfolding new_fault_session parse_duration ◌+ℤ◌
session_starts = refl

-- A pod that fails to recover and then does makes the status panic.
late_recovery :
    (get_status failing_session (cluster_with (recovered_record ∷ []))).0 ≡ crash unreachable_state
unfolding get_status filter_injected_pods build_pods_under_test_slice split insert has_key lookup
late_recovery = refl

status-IsReport_example :
    IsReport
      (recovered_record ∷ [])
      (get_status failing_session (cluster_with (recovered_record ∷ [])))
unfolding get_status filter_injected_pods build_pods_under_test_slice split insert has_key lookup
status-IsReport_example =
    status-IsReport failing_session failing_session (cluster_with (recovered_record ∷ []))
      (recovered_record ∷ []) refl

reachable-IsSound_example : IsSound failing_session
reachable-IsSound_example = reachable-IsSound failing_session (
    polled (cluster_with (failing_record ∷ []))
      (started (pos 5) (cluster_with []) latency_spec "fault-1" session_starts))
