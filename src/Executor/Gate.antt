-- ===== src/Executor/Gate.antt =====
-- What RunTestPlan of pkg/test_executor/executor.go leaves for GetPodsUnderTest and for a second run.
use attacknet.Base.{
  ◌≡◌, ◌≢◌, refl, sym, ap, subst, Bool, true, false, List, [], ◌∷◌, String, ok, err, crash, failure,
  or_fail, and_then, and_then-keeps,
}
use attacknet.Types.{
  StepType, invalid_step_type, inject_fault, wait_for_fault_completion, wait_for_duration,
  other_step, PlanStep,
}
use attacknet.Chaos.Client.{ChaosApi, start_fault}
use attacknet.Executor.Collect.{get_pods_under_test}
use attacknet.Executor.Pods.{firsts, pods_of, get_pods_under_test_lem}
use attacknet.Executor.Completed.{run_test_plan-completes}
use attacknet.Executor.Run.{
  StepYaml, StepAnswer, Running, Ran, watch_injection, run_inject_fault_step,
  run_wait_for_fault_completion, run_wait_for_duration, run_step_as, run_step, run_steps,
  run_test_plan,
}

abbrev Marked : Bool → Running → Type 0
Marked b r = r.executor.plan_completed ≡ b

module _ (api : ChaosApi) (yaml : StepYaml) (b : Bool) where
  step_as-Marked :
      (type : StepType) (text : String) (answer : StepAnswer) (r : Running)
      → Marked b r
      → Marked b ((run_step_as api yaml type text answer r).1)
  unfolding run_step_as run_inject_fault_step run_wait_for_fault_completion run_wait_for_duration
      watch_injection
  step_as-Marked inject_fault text answer r h =
      and_then-keeps (Marked b) (or_fail (yaml.single_fault text) _, r) _ h
        (λ step s k.
          and_then-keeps (Marked b) (start_fault api step.fault_spec answer.start, s) _ k
            (λ f s' k'. k'))
  step_as-Marked wait_for_fault_completion text answer r h =
      and_then-keeps (Marked b) (or_fail (yaml.fault_completion text) _, r) _ h (λ _ s k. k)
  step_as-Marked wait_for_duration text answer r h =
      and_then-keeps (Marked b) (or_fail (yaml.wait text) _, r) _ h (λ _ s k. k)
  step_as-Marked invalid_step_type text answer r h = h
  step_as-Marked (other_step _) text answer r h = h

  steps-Marked :
      (steps : List PlanStep) (answers : List StepAnswer) (r : Running)
      → Marked b r
      → Marked b ((run_steps api yaml steps answers r).1)
  unfolding run_steps run_step
  steps-Marked [] answers r h = h
  steps-Marked (step ∷ steps) [] r h = h
  steps-Marked (step ∷ steps) (answer ∷ answers) r h =
      and_then-keeps (Marked b) (run_step api yaml step answer r) _
        (and_then-keeps (Marked b) (or_fail (yaml.marshal step.spec) _, r) _ h
          (λ text s k. step_as-Marked step.step_type text answer s k))
        (λ _ s k. steps-Marked steps answers s k)

failed_run-Marked :
    (api : ChaosApi) (yaml : StepYaml) (answers : List StepAnswer) (r : Running)
    → r.executor.plan_completed ≡ false
    → (run_test_plan api yaml answers r).0 ≢ ok tt
    → Marked false ((run_test_plan api yaml answers r).1)
unfolding run_test_plan
failed_run-Marked api yaml answers r fresh failed =
    kept (run_steps api yaml r.executor.plan_steps answers r)
      (steps-Marked api yaml false r.executor.plan_steps answers r fresh) whole failed
  where
    whole :
        run_test_plan api yaml answers r
        ≡ and_then
            (run_steps api yaml r.executor.plan_steps answers r)
            (λ _ s. (ok tt, record s { executor = record s.executor { plan_completed = true } }))
    whole = rw (run_test_plan, fresh) refl

    kept :
        (m : Ran)
        → Marked false (m.1)
        → run_test_plan api yaml answers r
          ≡ and_then m
              (λ _ s. (ok tt, record s { executor = record s.executor { plan_completed = true } }))
        → (run_test_plan api yaml answers r).0 ≢ ok tt
        → Marked false ((run_test_plan api yaml answers r).1)
    kept (ok a, s) h e failed = absurd (failed (ap (λ (p : Ran). p.0) e))
    kept (err x, s) h e failed = subst (λ (p : Ran). Marked false (p.1)) (sym e) h
    kept (crash c, s) h e failed = subst (λ (p : Ran). Marked false (p.1)) (sym e) h

-- Of an executor that has not been run: when its run succeeds, GetPodsUnderTest gives the first pods
-- of each name of the sessions, and a second run is refused; when its run fails in any way,
-- GetPodsUnderTest gives an error.
pub run_test_plan-gate :
    (api : ChaosApi) (yaml : StepYaml) (answers again : List StepAnswer) (r : Running)
    → r.executor.plan_completed ≡ false
    → let (outcome, r') = run_test_plan api yaml answers r in
      ((outcome ≡ ok tt)
        → (get_pods_under_test r'.executor ≡ ok (firsts [] (pods_of r'.executor.fault_sessions)))
          × (run_test_plan api yaml again r'
              ≡ (err (failure "test executor has already been run"), r')))
      × ((outcome ≢ ok tt)
          → get_pods_under_test r'.executor
            ≡ err (failure "test has not been executed yet. cannot determine pods under test"))
unfolding run_test_plan get_pods_under_test
run_test_plan-gate api yaml answers again r fresh =
    let r' = (run_test_plan api yaml answers r).1 in
    (
      λ e.
          let (_, done, _) = run_test_plan-completes api yaml answers r r' (ap (λ o. (o, r')) e) in
          (get_pods_under_test_lem r'.executor done, rw (run_test_plan, done) refl),
      λ failed.
          let open' = failed_run-Marked api yaml answers r fresh failed in
          rw (get_pods_under_test, open') refl,
    )
