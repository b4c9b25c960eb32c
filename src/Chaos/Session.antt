-- ===== src/Chaos/Session.antt =====
-- pkg/chaos-mesh/session.go and pods.go: a fault that chaos-mesh runs, as its records are read again
-- and again. A method that changes the session gives its result and the session after it, which
-- keeps the changes also when the result is an error. What is only logged is left out.
use attacknet.Base.{
  ℕ, Bool, true, false, Option, none, some, List, [], ◌∷◌, length, get_elem?, leb, if◌then◌else◌,
  String, Outcome, ok, err, crash, failure, or_fail, or_crash, index_out_of_range, ◌>>=◌,
}
use attacknet.Base.Int.{ℤ, ◌+ℤ◌}
use attacknet.Base.Dict.{Dict, lookup}
use attacknet.Base.Text.{str_eq, split}
use attacknet.Golang.Duration.{Duration, parse_duration}
use attacknet.Types.{Fields, value_at, as_text, as_table}

pub data FaultStatus : Type 0 where
  starting in_progress stopping completed error : FaultStatus

pub record PodUnderTest : Type 0 where
  pub name : String
  pub labels : Dict String
  pub expect_death : Bool
  pub touched_by_fault : Bool

unfoldable pub matches_label : PodUnderTest → String → String → Bool
unfolding lookup
matches_label pod key value = elim (lookup key pod.labels) [
  | some v ↦ str_eq v value
  | none ↦ false
]

-- What the code reads of an event of a record: is its type TypeFailed, is its operation Recover?
pub record Event : Type 0 where
  pub is_failed : Bool
  pub is_recover : Bool
  pub message : String

-- What the code reads of chaos-mesh's Record.
pub record ChaosRecord : Type 0 where
  pub id : String
  pub phase : String
  pub injected_count : ℕ
  pub recovered_count : ℕ
  pub events : List Event

-- Is the type of the condition ConditionSelected, is its status ConditionTrue?
pub record Condition : Type 0 where
  pub is_selected : Bool
  pub is_true : Bool

-- What the code reads of a fault's resource; `none` is nil.
pub record Resource : Type 0 where
  pub conditions : Option (List Condition)
  pub records : Option (List ChaosRecord)
  pub duration : Option String

-- What the cluster answers: the resource of the fault, and the labels of a pod. The outer `none` is
-- an error, the inner one nil.
pub record Cluster : Type 0 where
  pub resource : Option Resource
  pub pod_labels : String → Option (Option (Dict String))

pub record FaultSession : Type 0 where
  pub fault_type : String
  pub fault_action : String
  pub fault_spec : Fields
  pub name : String
  pub pods_failing_recovery : Dict ChaosRecord
  pub checked_for_missing_pods : Bool
  pub pods_expected_missing : ℕ
  pub test_start_time : ℤ
  pub test_duration : Option Duration
  pub test_end_time : Option ℤ
  pub target_selection_completed : Bool
  pub pods_under_test : List PodUnderTest

-- getDuration: the resource's duration, or `none` for FaultHasNoDurationErr.
unfoldable pub get_duration : Cluster → Outcome (Option Duration)
get_duration cluster = do
  resource ← or_fail cluster.resource "Unable to query for resource"
  elim resource.duration [
    | none ↦ ok none
    | some s ↦ (do d ← or_fail (parse_duration s) "time: invalid duration"; ok (some d))
  ]

abbrev end_after : ℤ → Option Duration → Option ℤ
end_after now none = none
end_after now (some d) = some (now +ℤ d)

abbrev action_of : Option String → String
action_of none = "default"
action_of (some action) = action

unfoldable pub new_fault_session : ℤ → Cluster → Fields → String → Outcome FaultSession
unfolding get_duration value_at
new_fault_session now cluster fault_spec name = do
  kind ← or_fail (as_text (value_at "kind" fault_spec)) "failed to decode faultSpec.kind to string"
  spec ←
      or_fail (as_table (value_at "spec" fault_spec))
        "failed to decode faultSpec.spec to map[string]interface{}"
  duration ← get_duration cluster
  ok (record {
    fault_type = kind;
    fault_action = action_of (as_text (value_at "action" spec));
    fault_spec = spec;
    name = name;
    pods_failing_recovery = [];
    checked_for_missing_pods = false;
    pods_expected_missing = 0;
    test_start_time = now;
    test_duration = duration;
    test_end_time = end_after now duration;
    target_selection_completed = false;
    pods_under_test = [];
  })

-- What a method gives, and the session after it.
abbrev pub Stepped : Type 0 → Type 0
Stepped A = Outcome A × FaultSession

abbrev pub after : {A B : Type 0} → Stepped A → (A → FaultSession → Stepped B) → Stepped B
after (ok a, f) k = k a f
after (err e, f) k = (err e, f)
after (crash c, f) k = (crash c, f)

-- The loop over the conditions, which ends at the first one of selection.
unfoldable pub check_conditions : List Condition → FaultSession → Bool × FaultSession
check_conditions [] f = (false, f)
check_conditions (c ∷ rest) f =
    let skip = check_conditions rest f in
    let marked = if c.is_true then record f { target_selection_completed = true } else f in
    if c.is_selected then (true, marked) else skip

unfoldable pub check_target_selection_completed : FaultSession → Resource → Stepped Bool
unfolding check_conditions
check_target_selection_completed f resource =
    if f.target_selection_completed then (ok false, f) else elim resource.conditions [
      | none ↦ (err (failure "Unable to decode status.chaosstatus.conditions"), f)
      | some conditions ↦ let (selected, f') = check_conditions conditions f in (ok selected, f')
    ]

-- The names of the pods that are in the injected phase.
unfoldable pub filter_injected_pods : List ChaosRecord → Outcome (List String)
filter_injected_pods [] = ok []
filter_injected_pods (r ∷ rest) =
    let more = filter_injected_pods rest in
    let parts = split b'/' r.id in
    if str_eq r.phase "Injected"
    then (if leb (length parts) 2
        then err (failure "fault record id was split into less than two parts")
        else (do
          pod ← or_crash (get_elem? parts 1) index_out_of_range
          pods ← more
          ok (pod ∷ pods)))
    else more

unfoldable pub build_pods_under_test_slice :
    Cluster → Bool → List String → Outcome (List PodUnderTest)
build_pods_under_test_slice cluster expect_death [] = ok []
build_pods_under_test_slice cluster expect_death (pod ∷ rest) = do
  answer ← or_fail (cluster.pod_labels pod) "unable to query for pod"
  labels ← or_fail answer "pod had no labels"
  pods ← build_pods_under_test_slice cluster expect_death rest
  ok (
      record { name = pod; labels = labels; expect_death = expect_death; touched_by_fault = false }
      ∷ pods)
