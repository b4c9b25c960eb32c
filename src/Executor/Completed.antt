-- ===== src/Executor/Completed.antt =====
-- What is on record when RunTestPlan of pkg/test_executor/executor.go succeeds.
use attacknet.Base.{
  ◌≡◌, inl, inr, refl, sym, ap, ◌∙◌, subst, true, false, some, List, [], ◌∷◌, ◌++◌, map, append-nil,
  append_assoc, Bool-cases, String, ok, err, failure, or_fail, and_then, ok_of_and_then,
  ok_of_lifted, some_of_or_fail,
}
use attacknet.Types.{
  Fields, value_at, as_text, StepType, invalid_step_type, inject_fault, wait_for_fault_completion,
  wait_for_duration, other_step, PlanStep,
}
use attacknet.Chaos.Session.{FaultSession}
use attacknet.Chaos.Client.{ChaosApi, start_fault}
use attacknet.Chaos.Status.Keeps.{Identity}
use attacknet.Executor.Collect.{TestExecutor}
use attacknet.Executor.Waits.{wait_for_injection_completed}
use attacknet.Executor.Kept.{injection-identity, wait_for_sessions-identity}
use attacknet.Executor.Run.{
  PlanStepSingleFault, StepYaml, StepAnswer, Running, Ran, watch_injection, run_inject_fault_step,
  run_wait_for_fault_completion, run_wait_for_duration, run_step_as, run_step, run_steps,
  run_test_plan,
}
use attacknet.Executor.Begun.{
  step_kinds, kinds_of, session_kinds, new_fault_session-kind, start_fault-begins, map-append_one,
  Adds,
}

module _ (api : ChaosApi) (yaml : StepYaml) where
  watch_injection-Adds :
      (answer : StepAnswer) (f : FaultSession) (r : Running)
      → Adds (some f.fault_type ∷ []) r ((watch_injection answer f r).1)
  unfolding watch_injection
  watch_injection-Adds answer f r =
      let f' = (wait_for_injection_completed answer.now answer.now' f answer.turns).1 in
      let kept = injection-identity answer.now answer.now' f answer.turns in
      record {
        added =
            map-append_one r.executor.fault_sessions f'
            ∙ ap
                (λ (i : Identity).
                  session_kinds r.executor.fault_sessions ++ some i.fault_type ∷ [])
                kept;
        same_plan = refl;
      }

  inject-Adds :
      (step : PlanStepSingleFault) (answer : StepAnswer) (r r' : Running)
      → run_inject_fault_step api yaml step answer r ≡ (ok tt, r')
      → Adds (as_text (value_at "kind" step.fault_spec) ∷ []) r r'
  unfolding run_inject_fault_step
  inject-Adds step answer r r' e =
      let (f, began, e₁) = ok_of_lifted (start_fault api step.fault_spec answer.start) r _ e in
      let (name, new) = start_fault-begins api step.fault_spec answer.start f began in
      let kind =
        new_fault_session-kind answer.start.started_at answer.start.cluster step.fault_spec name f
          new in
      let there : (watch_injection answer f r).1 ≡ r' = ap (λ (p : Ran). p.1) e₁ in
      subst (λ k. Adds (k ∷ []) r r') (sym kind)
        (subst (λ s. Adds (some f.fault_type ∷ []) r s) there (watch_injection-Adds answer f r))

  completion-Adds :
      (answer : StepAnswer) (r r' : Running)
      → run_wait_for_fault_completion api yaml answer r ≡ (ok tt, r')
      → Adds [] r r'
  unfolding run_wait_for_fault_completion
  completion-Adds answer r r' e =
      let kept = wait_for_sessions-identity r.executor.fault_sessions answer.waits in
      subst (λ s. Adds [] r s) (ap (λ (p : Ran). p.1) e)
        (record {
          added =
              ap (map (λ (i : Identity). some i.fault_type)) kept
              ∙ sym (append-nil (session_kinds r.executor.fault_sessions));
          same_plan = refl;
        })

  step_as-Adds :
      (type : StepType) (spec : Fields) (text : String) (answer : StepAnswer) (r r' : Running)
      → yaml.marshal spec ≡ some text
      → run_step_as api yaml type text answer r ≡ (ok tt, r')
      → Adds (step_kinds yaml type spec) r r'
  unfolding run_step_as run_wait_for_duration
  step_as-Adds inject_fault spec text answer r r' m e =
      let (step, decoded, e₁) =
        ok_of_lifted
          (or_fail (yaml.single_fault text) "could not unmarshal injectFault step from plan") r _
          e in
      rw (m, some_of_or_fail (yaml.single_fault text) _ decoded) (inject-Adds step answer r r' e₁)
  step_as-Adds wait_for_fault_completion spec text answer r r' m e =
      let (_, _, e₁) =
        ok_of_lifted
          (or_fail (yaml.fault_completion text)
            "could not unmarshal waitForFaultCompletion step from plan")
          r _ e in
      completion-Adds answer r r' e₁
  step_as-Adds wait_for_duration spec text answer r r' m e =
      let (_, _, e₁) =
        ok_of_lifted (or_fail (yaml.wait text) "could not unmarshal waitForDuration step from plan")
          r _ e in
      subst (λ s. Adds [] r s) (ap (λ (p : Ran). p.1) e₁)
        (record {
          added = sym (append-nil (session_kinds r.executor.fault_sessions));
          same_plan = refl;
        })
  step_as-Adds invalid_step_type spec text answer r r' m e = cc
  step_as-Adds (other_step _) spec text answer r r' m e = cc

  step-Adds :
      (step : PlanStep) (answer : StepAnswer) (r r' : Running)
      → run_step api yaml step answer r ≡ (ok tt, r')
      → Adds (step_kinds yaml step.step_type step.spec) r r'
  unfolding run_step
  step-Adds step answer r r' e =
      let (text, m, e₁) =
        ok_of_lifted (or_fail (yaml.marshal step.spec) "could not marshal plan step") r _ e in
      step_as-Adds step.step_type step.spec text answer r r'
        (some_of_or_fail (yaml.marshal step.spec) _ m) e₁

  steps-Adds :
      (steps : List PlanStep) (answers : List StepAnswer) (r r' : Running)
      → run_steps api yaml steps answers r ≡ (ok tt, r')
      → Adds (kinds_of yaml steps) r r'
  unfolding run_steps
  steps-Adds [] answers r r' e =
      subst (λ s. Adds [] r s) (ap (λ (p : Ran). p.1) e)
        (record {
          added = sym (append-nil (session_kinds r.executor.fault_sessions));
          same_plan = refl;
        })
  steps-Adds (step ∷ steps) [] r r' e = cc
  steps-Adds (step ∷ steps) (answer ∷ answers) r r' e =
      let (_, r₁, e₁, e₂) = ok_of_and_then (run_step api yaml step answer r) _ e in
      let a = step-Adds step answer r r₁ e₁ in
      let b = steps-Adds steps answers r₁ r' e₂ in
      record {
        added =
            b.added
            ∙ ap (λ kinds. kinds ++ kinds_of yaml steps) a.added
            ∙ append_assoc (session_kinds r.executor.fault_sessions) _ _;
        same_plan = b.same_plan ∙ a.same_plan;
      }

-- A plan runs to its end only if it was not marked as run before. Then it is marked as run, and for
-- each step that injects a fault one session was added, in the order of the steps, of the kind that
-- the step's spec names; the sessions that were there before are kept, each with its kind.
pub run_test_plan-completes :
    (api : ChaosApi) (yaml : StepYaml) (answers : List StepAnswer) (r r' : Running)
    → run_test_plan api yaml answers r ≡ (ok tt, r')
    → (r.executor.plan_completed ≡ false)
      × (r'.executor.plan_completed ≡ true)
      × (session_kinds r'.executor.fault_sessions
          ≡ session_kinds r.executor.fault_sessions ++ kinds_of yaml r.executor.plan_steps)
unfolding run_test_plan
run_test_plan-completes api yaml answers r r' e = elim (Bool-cases r.executor.plan_completed) [
  | inl done ↦
      let bad : ◌≡◌ {A = Ran} (err (failure "test executor has already been run"), r) (ok tt, r') =
        sym (rw (run_test_plan, done) refl) ∙ e in
      cc
  | inr fresh ↦
      let e' : run_test_plan api yaml answers r
          ≡ and_then (run_steps api yaml r.executor.plan_steps answers r) (λ _ s.
            (ok tt, record s { executor = record s.executor { plan_completed = true } })) =
        rw (run_test_plan, fresh) refl in
      let (_, r₁, e₁, e₂) =
        ok_of_and_then (run_steps api yaml r.executor.plan_steps answers r) _ (sym e' ∙ e) in
      let a = steps-Adds api yaml r.executor.plan_steps answers r r₁ e₁ in
      let there = ap (λ (p : Ran). p.1.executor) (sym e₂) in
      (
        fresh,
        ap (λ (te : TestExecutor). te.plan_completed) there,
        ap (λ (te : TestExecutor). session_kinds te.fault_sessions) there ∙ a.added,
      )
]
