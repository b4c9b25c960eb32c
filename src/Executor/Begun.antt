-- ===== src/Executor/Begun.antt =====
-- The kinds of the sessions that RunTestPlan of pkg/test_executor/executor.go adds.
use attacknet.Base.{
  ◌≡◌, refl, ap, ◌∙◌, Option, none, some, List, [], ◌∷◌, ◌++◌, map, String, ok, or_fail, ok_of_bind,
  ok-injective, some_of_or_fail, require,
}
use attacknet.Base.Int.{ℤ}
use attacknet.Types.{Fields, value_at, as_text, as_table, StepType, inject_fault, PlanStep}
use attacknet.Chaos.Session.{FaultSession, Cluster, new_fault_session, get_duration}
use attacknet.Chaos.Client.{ChaosApi, StartAnswer, start_fault}
use attacknet.Chaos.Status.Keeps.{Identity, identity_of}
use attacknet.Executor.Run.{PlanStepSingleFault, StepYaml, Running}

-- The kind of fault that a text decodes to.
abbrev decoded_kind : Option PlanStepSingleFault → Option String
decoded_kind none = none
decoded_kind (some step) = as_text (value_at "kind" step.fault_spec)

module _ (yaml : StepYaml) where
  abbrev spec_kind : Option String → Option String
  spec_kind none = none
  spec_kind (some spec) = decoded_kind (yaml.single_fault spec)

  -- The kinds of the faults that the steps inject.
  abbrev pub step_kinds : StepType → Fields → List (Option String)
  step_kinds inject_fault spec = spec_kind (yaml.marshal spec) ∷ []
  step_kinds _ spec = []

  abbrev pub kinds_of : List PlanStep → List (Option String)
  kinds_of [] = []
  kinds_of (step ∷ steps) = step_kinds step.step_type step.spec ++ kinds_of steps

abbrev pub session_kinds : List FaultSession → List (Option String)
session_kinds fs = map (λ (i : Identity). some i.fault_type) (map identity_of fs)

pub new_fault_session-kind :
    (now : ℤ) (cluster : Cluster) (fault_spec : Fields) (name : String) (f : FaultSession)
    → new_fault_session now cluster fault_spec name ≡ ok f
    → as_text (value_at "kind" fault_spec) ≡ some f.fault_type
unfolding new_fault_session
new_fault_session-kind now cluster fault_spec name f e =
    let (kind, k, f₁) =
      ok_of_bind
        (or_fail (as_text (value_at "kind" fault_spec)) "failed to decode faultSpec.kind to string")
        _ e in
    let (spec, _, f₂) =
      ok_of_bind
        (or_fail (as_table (value_at "spec" fault_spec))
          "failed to decode faultSpec.spec to map[string]interface{}")
        _ f₁ in
    let (duration, _, f₃) = ok_of_bind (get_duration cluster) _ f₂ in
    some_of_or_fail _ _ k ∙ ap (λ (g : FaultSession). some g.fault_type) (ok-injective f₃)

pub start_fault-begins :
    (api : ChaosApi) (fault_spec : Fields) (answer : StartAnswer) (f : FaultSession)
    → start_fault api fault_spec answer ≡ ok f
    → (name : String) × (new_fault_session answer.started_at answer.cluster fault_spec name ≡ ok f)
unfolding start_fault
start_fault-begins api fault_spec answer f e =
    let (kind_obj, _, e₁) =
      ok_of_bind (or_fail (value_at "kind" fault_spec) "unable to find 'kind' within fault spec") _
        e in
    let (kind, _, e₂) =
      ok_of_bind (or_fail (as_text (some kind_obj)) "unable to cast faultSpec.Kind to string") _
        e₁ in
    let (_, _, e₃) = ok_of_bind (require (api.is_kind kind) "invalid fault kind") _ e₂ in
    let (marshalled, _, e₄) =
      ok_of_bind (or_fail (api.marshal fault_spec) "could not marshal faultspec") _ e₃ in
    let (_, _, e₅) =
      ok_of_bind (require (api.unmarshals kind marshalled) "could not unmarshal faultspec") _ e₄ in
    let (_, _, e₆) =
      ok_of_bind (require answer.is_created "could not create custom resource") _ e₅ in
    (_, e₆)

pub map-append_one :
    (fs : List FaultSession) (f : FaultSession)
    → session_kinds (fs ++ f ∷ []) ≡ session_kinds fs ++ some f.fault_type ∷ []
map-append_one [] f = refl
map-append_one (g ∷ fs) f = ap (◌∷◌ (some g.fault_type)) (map-append_one fs f)

-- A step from `r` to `r'` put sessions of these kinds on record.
pub record Adds (kinds : List (Option String)) (r r' : Running) : Type 0 where
  pub added :
      session_kinds r'.executor.fault_sessions ≡ session_kinds r.executor.fault_sessions ++ kinds
  pub same_plan : r'.executor.plan_completed ≡ r.executor.plan_completed
