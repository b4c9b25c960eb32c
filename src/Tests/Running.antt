-- ===== src/Tests/Running.antt =====
-- A plan that injects one fault and waits for it, once for a fault with a duration and once, as in
-- test-suites/kernel-fault.yaml, for one without, and the properties of the executor at it.
use attacknet.Base.{
  ◌*◌, true, false, none, some, List, [], ◌∷◌, ok, err, crash, failure, nil_pointer, out_of_fuel,
  ◌≡◌, ◌≢◌, ◌↔◌, ◌++◌, refl,
}
use attacknet.Base.Int.{pos, ◌+ℤ◌}
use attacknet.Base.Text.{split}
use attacknet.Golang.Duration.{parse_duration, second}
use attacknet.Types.{
  Fields, end, field, text, table, PlanStep, inject_fault, wait_for_fault_completion,
}
use attacknet.Chaos.Session.{
  ChaosRecord, Cluster, FaultSession, filter_injected_pods, build_pods_under_test_slice,
}
use attacknet.Chaos.Status.{get_status}
use attacknet.Chaos.Client.{ChaosApi}
use attacknet.Executor.Collect.{get_pods_under_test}
use attacknet.Executor.Pods.{firsts, pods_of}
use attacknet.Executor.Waits.{Turn, wait_for_injection_completed, wait_for_sessions}
use attacknet.Executor.Injection.{Injects, injection_iff, injection_total}
use attacknet.Executor.Endless.{MeetsEndless, wait_panics_iff}
use attacknet.Executor.Begun.{session_kinds, kinds_of}
use attacknet.Executor.Completed.{run_test_plan-completes}
use attacknet.Executor.Gate.{run_test_plan-gate}
use attacknet.Executor.Run.{StepYaml, StepAnswer, Running, run_test_plan}
use attacknet.Tests.Sessions.{recovered_record, cluster_with, new_session}

abbrev injected_record : ChaosRecord
injected_record = record recovered_record { phase = "Injected"; recovered_count = 0; events = [] }

-- The cluster's answer about a fault without a duration.
abbrev endless_cluster : Cluster
endless_cluster = record {
  resource = some (record {
    conditions = some (record { is_selected = true; is_true = true } ∷ []);
    records = some (injected_record ∷ []);
    duration = none;
  });
  pod_labels = λ pod. some (some []);
}

abbrev chaos_api : ChaosApi
chaos_api = record {
  is_kind = λ kind. true;
  marshal = λ spec. some "{}";
  unmarshals = λ kind spec. true;
}

abbrev fault_spec : Fields
fault_spec = field "kind" (text "KernelChaos") (field "spec" (table end) end)

abbrev one_fault : StepYaml
one_fault = record {
  marshal = λ spec. some "";
  single_fault = λ spec. some (record { fault_spec = fault_spec });
  fault_completion = λ spec. some tt;
  wait = λ spec. none;
}

abbrev two_steps : List PlanStep
two_steps =
    record { step_type = inject_fault; step_description = "inject"; spec = end }
    ∷ record { step_type = wait_for_fault_completion; step_description = "wait"; spec = end }
    ∷ []

abbrev fresh : Running
fresh = record {
  executor = record {
    test_name = "kernel-fault";
    plan_steps = two_steps;
    fault_sessions = [];
    plan_completed = false;
  };
  pauses = [];
}

abbrev in_turn : Cluster → Turn
in_turn cluster = record { checked_at = pos 7; cluster = cluster; judged_at = pos 8 }

-- Both steps, for a fault about which the cluster first gives one answer and then another.
abbrev answers_of : Cluster → Cluster → List StepAnswer
answers_of first then =
    let answer : StepAnswer = record {
      start = record {
        named_at = pos 2000;
        is_created = true;
        started_at = pos 5;
        cluster = first;
      };
      now = pos 6;
      now' = pos 6;
      turns = in_turn first ∷ [];
      waits = record { now = pos 9; clusters = then ∷ [] } ∷ [];
    } in
    answer ∷ answer ∷ []

abbrev answers : List StepAnswer
answers = answers_of (cluster_with (injected_record ∷ [])) (cluster_with (recovered_record ∷ []))

abbrev ended : Running
ended = (run_test_plan chaos_api one_fault answers fresh).1

run_succeeds : (run_test_plan chaos_api one_fault answers fresh).0 ≡ ok tt
unfolding run_test_plan filter_injected_pods build_pods_under_test_slice split parse_duration
run_succeeds = refl

-- The pause lasts until the end of the fault.
run_pauses : ended.pauses ≡ pos 59999999996 ∷ []
unfolding run_test_plan filter_injected_pods build_pods_under_test_slice split parse_duration
run_pauses = refl

-- A fault without a duration makes the wait for it panic.
endless_run :
    (run_test_plan chaos_api one_fault (answers_of endless_cluster endless_cluster) fresh).0
    ≡ crash nil_pointer
unfolding run_test_plan filter_injected_pods build_pods_under_test_slice split
endless_run = refl

run_test_plan-completes_example :
    (fresh.executor.plan_completed ≡ false)
    × (ended.executor.plan_completed ≡ true)
    × (session_kinds ended.executor.fault_sessions
        ≡ session_kinds fresh.executor.fault_sessions ++ kinds_of one_fault two_steps)
run_test_plan-completes_example =
    run_test_plan-completes chaos_api one_fault answers fresh ended (λ k. (run_succeeds k, ended))

run_test_plan-gate_example :
    ((run_test_plan chaos_api one_fault answers fresh).0 ≡ ok tt
      → (get_pods_under_test ended.executor
          ≡ ok (firsts [] (pods_of ended.executor.fault_sessions)))
        × (run_test_plan chaos_api one_fault answers ended
            ≡ (err (failure "test executor has already been run"), ended)))
    × ((run_test_plan chaos_api one_fault answers fresh).0 ≢ ok tt
        → get_pods_under_test ended.executor
          ≡ err (failure "test has not been executed yet. cannot determine pods under test"))
run_test_plan-gate_example = run_test_plan-gate chaos_api one_fault answers answers fresh refl

abbrev injecting : FaultSession
injecting = (get_status new_session (cluster_with (injected_record ∷ []))).1

injection_iff_example :
    (wait_for_injection_completed
        (pos 6)
        (pos 6)
        new_session
        (in_turn (cluster_with (injected_record ∷ [])) ∷ [])
      ≡ (ok tt, injecting))
    ↔ Injects
        (pos 6 +ℤ pos (10 * second))
        (pos 6 +ℤ pos (5 * second))
        new_session
        (in_turn (cluster_with (injected_record ∷ [])) ∷ [])
        injecting
injection_iff_example =
    injection_iff (pos 6) (pos 6) new_session injecting
      (in_turn (cluster_with (injected_record ∷ [])) ∷ [])

abbrev late_turn : Turn
late_turn = record (in_turn endless_cluster) { checked_at = pos 10000000007 }

injection_total_example :
    (wait_for_injection_completed (pos 6) (pos 6) new_session (late_turn ∷ [])).0
    ≢ crash out_of_fuel
unfolding ◌+ℤ◌
injection_total_example = injection_total (pos 6) (pos 6) new_session (late_turn ∷ []) refl

abbrev endless_session : FaultSession
endless_session = record new_session { test_duration = none; test_end_time = none }

wait_panics_iff_example :
    ((wait_for_sessions (endless_session ∷ []) (record { now = pos 9; clusters = [] } ∷ [])).0
      ≡ crash nil_pointer)
    ↔ MeetsEndless (endless_session ∷ []) (record { now = pos 9; clusters = [] } ∷ [])
wait_panics_iff_example =
    wait_panics_iff (endless_session ∷ []) (record { now = pos 9; clusters = [] } ∷ [])
