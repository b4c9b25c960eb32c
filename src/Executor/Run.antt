-- ===== src/Executor/Run.antt =====
-- pkg/test_executor/types.go, and RunTestPlan of executor.go with its three kinds of steps. The
-- pauses that the waits make are kept in a list.
use attacknet.Base.{
  true, false, Option, List, [], ◌∷◌, ◌++◌, if◌then◌else◌, String, Outcome, ok, err, crash, failure,
  or_fail, and_then, out_of_fuel,
}
use attacknet.Base.Int.{ℤ}
use attacknet.Golang.Duration.{Duration}
use attacknet.Types.{
  Fields, StepType, invalid_step_type, inject_fault, wait_for_fault_completion, wait_for_duration,
  other_step, PlanStep, SuiteTest,
}
use attacknet.Chaos.Session.{FaultSession}
use attacknet.Chaos.Client.{ChaosApi, StartAnswer, start_fault}
use attacknet.Executor.Collect.{TestExecutor}
use attacknet.Executor.Waits.{Turn, WaitAnswer, wait_for_injection_completed, wait_for_sessions}

pub record PlanStepSingleFault : Type 0 where
  pub fault_spec : Fields

pub record PlanStepWait : Type 0 where
  pub step_description : String
  pub wait_amount : Duration

-- yaml.Marshal of a step's spec, and yaml.Unmarshal into the three types of steps, of which the one
-- for the faults' completion has no fields; `none` is an error.
pub record StepYaml : Type 0 where
  pub marshal : Fields → Option String
  pub single_fault : String → Option PlanStepSingleFault
  pub fault_completion : String → Option (Unit {0})
  pub wait : String → Option PlanStepWait

unfoldable pub create_test_executor : SuiteTest → TestExecutor
create_test_executor test = record {
  test_name = test.test_name;
  plan_steps = test.plan_steps;
  fault_sessions = [];
  plan_completed = false;
}

-- What the clock and the cluster say in the course of one step.
pub record StepAnswer : Type 0 where
  pub start : StartAnswer
  pub now : ℤ
  pub now' : ℤ
  pub turns : List Turn
  pub waits : List WaitAnswer

-- The executor, and the pauses that it has made.
pub record Running : Type 0 where
  pub executor : TestExecutor
  pub pauses : List Duration

abbrev pub Ran : Type 0
Ran = Outcome (Unit {0}) × Running

abbrev pub with_sessions : Running → List FaultSession → Running
with_sessions r sessions = record r { executor = record r.executor { fault_sessions = sessions } }

-- The session is on record before the wait, which changes it.
unfoldable pub watch_injection : StepAnswer → FaultSession → Running → Ran
unfolding wait_for_injection_completed
watch_injection answer f r =
    let (outcome, f') = wait_for_injection_completed answer.now answer.now' f answer.turns in
    (outcome, with_sessions r (r.executor.fault_sessions ++ f' ∷ []))

module _ (api : ChaosApi) (yaml : StepYaml) where
  unfoldable pub run_inject_fault_step : PlanStepSingleFault → StepAnswer → Running → Ran
  unfolding start_fault watch_injection
  run_inject_fault_step step answer r =
      and_then (start_fault api step.fault_spec answer.start, r)
        (λ f r'. watch_injection answer f r')

  unfoldable pub run_wait_for_fault_completion : StepAnswer → Running → Ran
  unfolding wait_for_sessions
  run_wait_for_fault_completion answer r =
      let (outcome, sessions, pauses) = wait_for_sessions r.executor.fault_sessions answer.waits in
      (outcome, record (with_sessions r sessions) { pauses = r.pauses ++ pauses })

  unfoldable pub run_wait_for_duration : PlanStepWait → Running → Ran
  run_wait_for_duration step r = (ok tt, record r { pauses = r.pauses ++ step.wait_amount ∷ [] })

  -- The switch on the type of a step.
  unfoldable pub run_step_as : StepType → String → StepAnswer → Running → Ran
  unfolding run_inject_fault_step run_wait_for_fault_completion run_wait_for_duration
  run_step_as inject_fault spec answer r =
      and_then
        (or_fail (yaml.single_fault spec) "could not unmarshal injectFault step from plan", r)
        (λ step r'. run_inject_fault_step step answer r')
  run_step_as wait_for_fault_completion spec answer r =
      and_then
        (
          or_fail (yaml.fault_completion spec)
              "could not unmarshal waitForFaultCompletion step from plan",
          r,
        )
        (λ _ r'. run_wait_for_fault_completion answer r')
  run_step_as wait_for_duration spec answer r =
      and_then (or_fail (yaml.wait spec) "could not unmarshal waitForDuration step from plan", r)
        (λ step r'. run_wait_for_duration step r')
  run_step_as invalid_step_type spec answer r = (err (failure "Unknown fault step type"), r)
  run_step_as (other_step _) spec answer r = (err (failure "Unknown fault step type"), r)

  unfoldable pub run_step : PlanStep → StepAnswer → Running → Ran
  unfolding run_step_as
  run_step step answer r =
      and_then (or_fail (yaml.marshal step.spec) "could not marshal plan step", r)
        (λ spec r'. run_step_as step.step_type spec answer r')

  -- The loop over the steps, with one answer for each.
  unfoldable pub run_steps : List PlanStep → List StepAnswer → Running → Ran
  unfolding run_step
  run_steps [] answers r = (ok tt, r)
  run_steps (step ∷ steps) [] r = (crash out_of_fuel, r)
  run_steps (step ∷ steps) (answer ∷ answers) r =
      and_then (run_step step answer r) (λ _ r'. run_steps steps answers r')

  unfoldable pub run_test_plan : List StepAnswer → Running → Ran
  unfolding run_steps
  run_test_plan answers r =
      if r.executor.plan_completed
      then (err (failure "test executor has already been run"), r)
      else and_then (run_steps r.executor.plan_steps answers r)
          (λ _ r'. (ok tt, record r' { executor = record r'.executor { plan_completed = true } }))
