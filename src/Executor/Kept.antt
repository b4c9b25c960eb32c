-- ===== src/Executor/Kept.antt =====
-- The waits of pkg/test_executor/executor.go change no session's identity.
use attacknet.Base.{
  ◌≡◌, inl, inr, refl, ◌∙◌, Option, none, some, List, [], ◌∷◌, map, Bool-cases, ok, err, crash, ◌*◌,
}
use attacknet.Golang.Duration.{second}
use attacknet.Base.Int.{ℤ, pos, ◌+ℤ◌, ltb_ℤ}
use attacknet.Chaos.Session.{
  FaultStatus, starting, in_progress, stopping, completed, error, Cluster, FaultSession, Stepped,
}
use attacknet.Chaos.Status.{get_status}
use attacknet.Chaos.Status.Keeps.{Identity, identity_of, get_status-identity, after-keeps}
use attacknet.Executor.Recover.{recovery_turn, wait_for_fault_recovery}
use attacknet.Executor.Waits.{
  Turn, is_untargeted, injection_turn, injection_turns, wait_for_injection_completed, WaitAnswer,
  Waited, session_turn, wait_for_sessions,
}
use attacknet.Executor.Injection.{judge, turn_lem, late_lem}

recovery-identity :
    (i : Identity) (f : FaultSession) (clusters : List Cluster)
    → identity_of f ≡ i
    → identity_of ((wait_for_fault_recovery f clusters).1) ≡ i
unfolding wait_for_fault_recovery
recovery-identity i f [] h = h
recovery-identity i f (cluster ∷ rest) h =
    after-keeps (λ f'. identity_of f' ≡ i) (get_status f cluster) _
      (get_status-identity f cluster ∙ h)
      (λ status f₁ h₁. polled status f₁ (recovery-identity i f₁ rest h₁) h₁)
  where
    polled :
        (status : FaultStatus) (f₁ : FaultSession)
        → identity_of ((wait_for_fault_recovery f₁ rest).1) ≡ i
        → identity_of f₁ ≡ i
        → identity_of ((recovery_turn status f₁ (wait_for_fault_recovery f₁ rest)).1) ≡ i
    polled in_progress f₁ ih h₁ = ih
    polled stopping f₁ ih h₁ = ih
    polled completed f₁ ih h₁ = h₁
    polled error f₁ ih h₁ = h₁
    polled starting f₁ ih h₁ = h₁

judge-identity :
    (i : Identity) (timeout_at grace : ℤ) (turn : Turn) (rest : List Turn) (s : Stepped FaultStatus)
    → identity_of (s.1) ≡ i
    → identity_of ((injection_turns timeout_at grace (s.1) rest).1) ≡ i
    → identity_of ((judge timeout_at grace turn rest s).1) ≡ i
unfolding injection_turn
judge-identity i timeout_at grace turn rest (crash c, f) h ih = h
judge-identity i timeout_at grace turn rest (err e, f) h ih = ih
judge-identity i timeout_at grace turn rest (ok in_progress, f) h ih = h
judge-identity i timeout_at grace turn rest (ok stopping, f) h ih = h
judge-identity i timeout_at grace turn rest (ok completed, f) h ih = h
judge-identity i timeout_at grace turn rest (ok error, f) h ih = h
judge-identity i timeout_at grace turn rest (ok starting, f) h ih =
    elim (Bool-cases (is_untargeted grace f turn)) [
      | inl u ↦ rw (injection_turn, u) h
      | inr u ↦ rw (injection_turn, u) ih
    ]

injection_turns-identity :
    (i : Identity) (timeout_at grace : ℤ) (f : FaultSession) (turns : List Turn)
    → identity_of f ≡ i
    → identity_of ((injection_turns timeout_at grace f turns).1) ≡ i
unfolding injection_turns
injection_turns-identity i timeout_at grace f [] h = h
injection_turns-identity i timeout_at grace f (turn ∷ rest) h =
    elim (Bool-cases (ltb_ℤ timeout_at turn.checked_at)) [
      | inl late ↦ rw (late_lem timeout_at grace f turn rest late) h
      | inr t ↦
          let h₁ : identity_of ((get_status f turn.cluster).1) ≡ i =
            get_status-identity f turn.cluster ∙ h in
          rw (turn_lem timeout_at grace f turn rest t) (
            judge-identity i timeout_at grace turn rest (get_status f turn.cluster) h₁
              (injection_turns-identity i timeout_at grace ((get_status f turn.cluster).1) rest h₁))
    ]

pub injection-identity :
    (now now' : ℤ) (f : FaultSession) (turns : List Turn)
    → identity_of ((wait_for_injection_completed now now' f turns).1) ≡ identity_of f
unfolding wait_for_injection_completed
injection-identity now now' f turns =
    injection_turns-identity (identity_of f) (now +ℤ pos (10 * second)) (now' +ℤ pos (5 * second)) f
      turns refl

session_turn-identity :
    (end : Option ℤ) (f : FaultSession) (fs : List FaultSession) (now : ℤ)
    (recovered : Stepped (Unit {0})) (more : Waited)
    → identity_of (recovered.1) ≡ identity_of f
    → map identity_of (more.1) ≡ map identity_of fs
    → map identity_of ((session_turn end f fs now recovered more).1) ≡ map identity_of (f ∷ fs)
unfolding session_turn
session_turn-identity none f fs now recovered more h ih = refl
session_turn-identity (some end) f fs now (ok _, f') (outcome, fs', pauses) h ih = λ k. h k ∷ ih k
session_turn-identity (some end) f fs now (err e, f') more h ih = λ k. h k ∷ map identity_of fs
session_turn-identity (some end) f fs now (crash c, f') more h ih = λ k. h k ∷ map identity_of fs

pub wait_for_sessions-identity :
    (sessions : List FaultSession) (answers : List WaitAnswer)
    → map identity_of ((wait_for_sessions sessions answers).1) ≡ map identity_of sessions
unfolding wait_for_sessions
wait_for_sessions-identity [] answers = refl
wait_for_sessions-identity (f ∷ fs) [] = refl
wait_for_sessions-identity (f ∷ fs) (answer ∷ answers) =
    session_turn-identity f.test_end_time f fs answer.now
      (wait_for_fault_recovery f answer.clusters) (wait_for_sessions fs answers)
      (recovery-identity (identity_of f) f answer.clusters refl)
      (wait_for_sessions-identity fs answers)
