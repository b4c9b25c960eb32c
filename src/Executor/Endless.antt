-- ===== src/Executor/Endless.antt =====
-- When runWaitForFaultCompletion of pkg/test_executor/executor.go reads an end time that is nil.
use attacknet.Base.{
  ◌≡◌, ◌↔◌, refl, ap, ◌∙◌, subst, Option, none, some, List, [], ◌∷◌, Outcome, ok, err, crash, Crash,
  index_out_of_range, nil_pointer, unreachable_state, unspecified_conversion, closed_channel, exit,
  blocked, out_of_fuel,
}
use attacknet.Base.Int.{ℤ}
use attacknet.Chaos.Session.{
  FaultStatus, starting, in_progress, stopping, completed, error, Cluster, FaultSession, Stepped,
  after,
}
use attacknet.Chaos.Status.{get_status}
use attacknet.Chaos.Status.Fuel.{Returns, get_status-Returns}
use attacknet.Executor.Recover.{recovery_turn, wait_for_fault_recovery}
use attacknet.Executor.Recovery.{Recovers, recovery_iff}
use attacknet.Executor.Waits.{WaitAnswer, Waited, session_turn, wait_for_sessions}

abbrev IsOther : Crash → Type 0
IsOther nil_pointer = ⊥
IsOther _ = Unit

-- No nil pointer is read.
abbrev ReadsNoNil : {A : Type 0} → Outcome A → Type 0
ReadsNoNil (ok _) = Unit
ReadsNoNil (err _) = Unit
ReadsNoNil (crash c) = IsOther c

ReadsNoNil-if : {A : Type 0} (o : Outcome A) → Returns o → ReadsNoNil o
ReadsNoNil-if (ok _) h = tt
ReadsNoNil-if (err _) h = tt
ReadsNoNil-if (crash index_out_of_range) h = tt
ReadsNoNil-if (crash unreachable_state) h = tt
ReadsNoNil-if (crash nil_pointer) h = h
ReadsNoNil-if (crash unspecified_conversion) h = tt
ReadsNoNil-if (crash closed_channel) h = tt
ReadsNoNil-if (crash exit) h = tt
ReadsNoNil-if (crash blocked) h = tt
ReadsNoNil-if (crash out_of_fuel) h = tt

ReadsNoNil-turn :
    (status : FaultStatus) (f : FaultSession) (again : Stepped (Unit {0}))
    → ReadsNoNil (again.0)
    → ReadsNoNil ((recovery_turn status f again).0)
ReadsNoNil-turn in_progress f again h = h
ReadsNoNil-turn stopping f again h = h
ReadsNoNil-turn error f again h = tt
ReadsNoNil-turn completed f again h = tt
ReadsNoNil-turn starting f again h = tt

ReadsNoNil-after :
    {A B : Type 0} (m : Stepped A) (k : A → FaultSession → Stepped B)
    → ReadsNoNil (m.0)
    → ((a : A) (f : FaultSession) → ReadsNoNil ((k a f).0))
    → ReadsNoNil ((after m k).0)
ReadsNoNil-after (ok a, f) k h g = g a f
ReadsNoNil-after (err e, f) k h g = tt
ReadsNoNil-after (crash c, f) k h g = h

ReadsNoNil-recovery :
    (f : FaultSession) (clusters : List Cluster)
    → ReadsNoNil ((wait_for_fault_recovery f clusters).0)
unfolding wait_for_fault_recovery
ReadsNoNil-recovery f [] = tt
ReadsNoNil-recovery f (cluster ∷ rest) =
    ReadsNoNil-after (get_status f cluster) _ (ReadsNoNil-if _ (get_status-Returns f cluster))
      (λ status f₁. ReadsNoNil-turn status f₁ _ (ReadsNoNil-recovery f₁ rest))

-- The faults before one without an end time have all recovered.
pub data MeetsEndless : List FaultSession → List WaitAnswer → Type 0 where
  endless :
      {f : FaultSession} {fs : List FaultSession} {answer : WaitAnswer} {answers : List WaitAnswer}
      → f.test_end_time ≡ none
      → MeetsEndless (f ∷ fs) (answer ∷ answers)
  recovers :
      {f f' : FaultSession} {fs : List FaultSession} {answer : WaitAnswer}
      {answers : List WaitAnswer} (end : ℤ)
      → f.test_end_time ≡ some end
      → Recovers f answer.clusters f'
      → MeetsEndless fs answers
      → MeetsEndless (f ∷ fs) (answer ∷ answers)

MeetsEndless-turn :
    (f : FaultSession) (fs : List FaultSession) (answer : WaitAnswer) (answers : List WaitAnswer)
    (end : Option ℤ) (recovered : Stepped (Unit {0})) (more : Waited)
    → f.test_end_time ≡ end
    → wait_for_fault_recovery f answer.clusters ≡ recovered
    → ReadsNoNil (recovered.0)
    → (more.0 ≡ crash nil_pointer → MeetsEndless fs answers)
    → (session_turn end f fs answer.now recovered more).0 ≡ crash nil_pointer
    → MeetsEndless (f ∷ fs) (answer ∷ answers)
unfolding session_turn
MeetsEndless-turn f fs answer answers none recovered more t w n ih e = endless t
MeetsEndless-turn f fs answer answers (some end) (ok _, f') (outcome, fs', pauses) t w n ih e =
    recovers end t ((recovery_iff f f' answer.clusters).0 w) (ih e)
MeetsEndless-turn f fs answer answers (some end) (err x, f') more t w n ih e = cc
MeetsEndless-turn f fs answer answers (some end) (crash c, f') more t w n ih e =
    absurd (subst ReadsNoNil e n)

MeetsEndless-if :
    (sessions : List FaultSession) (answers : List WaitAnswer)
    → (wait_for_sessions sessions answers).0 ≡ crash nil_pointer
    → MeetsEndless sessions answers
unfolding wait_for_sessions
MeetsEndless-if [] answers e = cc
MeetsEndless-if (f ∷ fs) [] e = cc
MeetsEndless-if (f ∷ fs) (answer ∷ answers) e =
    MeetsEndless-turn f fs answer answers f.test_end_time
      (wait_for_fault_recovery f answer.clusters) (wait_for_sessions fs answers) refl refl
      (ReadsNoNil-recovery f answer.clusters) (MeetsEndless-if fs answers) e

MeetsEndless-only_if :
    (sessions : List FaultSession) (answers : List WaitAnswer)
    → MeetsEndless sessions answers
    → (wait_for_sessions sessions answers).0 ≡ crash nil_pointer
unfolding wait_for_sessions session_turn
MeetsEndless-only_if (f ∷ fs) (answer ∷ answers) (endless t) = rw (wait_for_sessions, t) refl
MeetsEndless-only_if (f ∷ fs) (answer ∷ answers) (recovers {f' = f'} end t r m) =
    let recovered = wait_for_fault_recovery f answer.clusters in
    let more = wait_for_sessions fs answers in
    ap (λ e. (session_turn e f fs answer.now recovered more).0) t
    ∙ ap (λ w. (session_turn (some end) f fs answer.now w more).0)
        ((recovery_iff f f' answer.clusters).1 r)
    ∙ MeetsEndless-only_if fs answers m
MeetsEndless-only_if [] answers m = elim m [ ]
MeetsEndless-only_if (f ∷ fs) [] m = elim m [ ]

-- The wait for the faults' completion panics on a nil pointer exactly if it comes to a session without
-- an end time, when all sessions before it have end times and have recovered.
pub wait_panics_iff :
    (sessions : List FaultSession) (answers : List WaitAnswer)
    → ((wait_for_sessions sessions answers).0 ≡ crash nil_pointer) ↔ MeetsEndless sessions answers
wait_panics_iff sessions answers =
    (MeetsEndless-if sessions answers, MeetsEndless-only_if sessions answers)
