-- ===== src/Executor/Injection.antt =====
-- When waitForInjectionCompleted of pkg/test_executor/executor.go succeeds, and that it ends.
use attacknet.Base.{
  ◌≡◌, ◌≢◌, ◌↔◌, ◌⊎◌, not, ◌&&◌, inl, inr, refl, sym, ap, ◌∙◌, true, false, ◌||◌, any, List, [],
  ◌∷◌, Bool-cases, ok, err, crash, Error, failure, out_of_fuel, ◌*◌, subst,
}
use attacknet.Base.Int.{ℤ, pos, ◌+ℤ◌, ltb_ℤ}
use attacknet.Golang.Duration.{second}
use attacknet.Chaos.Session.{
  FaultStatus, starting, in_progress, stopping, completed, error, FaultSession, Stepped,
}
use attacknet.Chaos.Status.{get_status}
use attacknet.Chaos.Status.Fuel.{Returns, get_status-Returns}
use attacknet.Executor.Waits.{
  Turn, is_untargeted, injection_turn, injection_turns, wait_for_injection_completed,
}

abbrev pub HasStarted : FaultStatus → Type 0
HasStarted in_progress = Unit
HasStarted stopping = Unit
HasStarted completed = Unit
HasStarted _ = ⊥

-- Each turn begins before the timeout. Until the fault is under way, the status cannot be read, or it
-- is Starting and its targets are selected or the grace period is not over.
pub data Injects (timeout_at grace : ℤ) : FaultSession → List Turn → FaultSession → Type 0 where
  injected :
      {f f' : FaultSession} {turn : Turn} {rest : List Turn} (status : FaultStatus)
      → HasStarted status
      → ltb_ℤ timeout_at turn.checked_at ≡ false
      → get_status f turn.cluster ≡ (ok status, f')
      → Injects timeout_at grace f (turn ∷ rest) f'
  unread :
      {f f₁ f' : FaultSession} {turn : Turn} {rest : List Turn} {e : Error}
      → ltb_ℤ timeout_at turn.checked_at ≡ false
      → get_status f turn.cluster ≡ (err e, f₁)
      → Injects timeout_at grace f₁ rest f'
      → Injects timeout_at grace f (turn ∷ rest) f'
  starts :
      {f f₁ f' : FaultSession} {turn : Turn} {rest : List Turn}
      → ltb_ℤ timeout_at turn.checked_at ≡ false
      → get_status f turn.cluster ≡ (ok starting, f₁)
      → (f₁.target_selection_completed ≡ true) ⊎ (ltb_ℤ grace turn.judged_at ≡ false)
      → Injects timeout_at grace f₁ rest f'
      → Injects timeout_at grace f (turn ∷ rest) f'

module _ (timeout_at grace : ℤ) where
  -- The turn, when its status was read.
  abbrev pub judge : Turn → List Turn → Stepped FaultStatus → Stepped (Unit {0})
  judge turn rest (status, f') =
      injection_turn grace turn status f' (injection_turns timeout_at grace f' rest)

  pub turn_lem :
      (f : FaultSession) (turn : Turn) (rest : List Turn)
      → ltb_ℤ timeout_at turn.checked_at ≡ false
      → injection_turns timeout_at grace f (turn ∷ rest)
        ≡ judge turn rest (get_status f turn.cluster)
  unfolding injection_turns
  turn_lem f turn rest e = rw (injection_turns, e) refl

  pub late_lem :
      (f : FaultSession) (turn : Turn) (rest : List Turn)
      → ltb_ℤ timeout_at turn.checked_at ≡ true
      → injection_turns timeout_at grace f (turn ∷ rest)
        ≡ (err (failure "chaos-mesh is still in a 'starting' state after 10 seconds"), f)
  unfolding injection_turns
  late_lem f turn rest e = rw (injection_turns, e) refl

  targeted :
      (f₁ : FaultSession) (turn : Turn)
      → is_untargeted grace f₁ turn ≡ false
      → (f₁.target_selection_completed ≡ true) ⊎ (ltb_ℤ grace turn.judged_at ≡ false)
  targeted f₁ turn u = elim (Bool-cases f₁.target_selection_completed) [
    | inl y ↦ inl y
    | inr n ↦ inr (sym (ap (λ b. not b && ltb_ℤ grace turn.judged_at) n) ∙ u)
  ]

  untargeted :
      (f₁ : FaultSession) (turn : Turn)
      → (f₁.target_selection_completed ≡ true) ⊎ (ltb_ℤ grace turn.judged_at ≡ false)
      → is_untargeted grace f₁ turn ≡ false
  untargeted f₁ turn (inl y) = ap (λ b. not b && ltb_ℤ grace turn.judged_at) y
  untargeted f₁ turn (inr n) = elim (Bool-cases f₁.target_selection_completed) [
    | inl y ↦ ap (λ b. not b && ltb_ℤ grace turn.judged_at) y
    | inr m ↦ ap (λ b. not b && ltb_ℤ grace turn.judged_at) m ∙ n
  ]

  Injects-judge :
      (f f' : FaultSession) (turn : Turn) (rest : List Turn) (s : Stepped FaultStatus)
      → ltb_ℤ timeout_at turn.checked_at ≡ false
      → get_status f turn.cluster ≡ s
      → ((f₁ : FaultSession)
          → injection_turns timeout_at grace f₁ rest ≡ (ok tt, f')
          → Injects timeout_at grace f₁ rest f')
      → judge turn rest s ≡ (ok tt, f')
      → Injects timeout_at grace f (turn ∷ rest) f'
  unfolding injection_turn
  Injects-judge f f' turn rest (crash c, f₁) t h ih e = cc
  Injects-judge f f' turn rest (err x, f₁) t h ih e = unread t h (ih f₁ e)
  Injects-judge f f' turn rest (ok in_progress, f₁) t h ih e =
      let same : f₁ ≡ f' = ap (λ (p : Stepped (Unit {0})). p.1) e in
      injected in_progress tt t (h ∙ ap (λ x. (ok in_progress, x)) same)
  Injects-judge f f' turn rest (ok stopping, f₁) t h ih e =
      let same : f₁ ≡ f' = ap (λ (p : Stepped (Unit {0})). p.1) e in
      injected stopping tt t (h ∙ ap (λ x. (ok stopping, x)) same)
  Injects-judge f f' turn rest (ok completed, f₁) t h ih e =
      let same : f₁ ≡ f' = ap (λ (p : Stepped (Unit {0})). p.1) e in
      injected completed tt t (h ∙ ap (λ x. (ok completed, x)) same)
  Injects-judge f f' turn rest (ok starting, f₁) t h ih e =
      elim (Bool-cases (is_untargeted grace f₁ turn)) [
        | inl u ↦
            let failed : ◌≡◌ {A = Stepped (Unit {0})}
                (err (failure "chaos-mesh was unable to identify any pods for injection"), f₁)
                (ok tt, f') =
              sym (rw (injection_turn, u) refl) ∙ e in
            cc
        | inr u ↦ starts t h (targeted f₁ turn u) (ih f₁ (sym (rw (injection_turn, u) refl) ∙ e))
      ]
  Injects-judge f f' turn rest (ok error, f₁) t h ih e = cc

  Injects-if :
      (f f' : FaultSession) (turns : List Turn)
      → injection_turns timeout_at grace f turns ≡ (ok tt, f')
      → Injects timeout_at grace f turns f'
  unfolding injection_turns
  Injects-if f f' [] e = cc
  Injects-if f f' (turn ∷ rest) e = elim (Bool-cases (ltb_ℤ timeout_at turn.checked_at)) [
    | inl late ↦ let bad = sym (late_lem f turn rest late) ∙ e in cc
    | inr t ↦
        Injects-judge f f' turn rest (get_status f turn.cluster) t refl
          (λ f₁ g. Injects-if f₁ f' rest g) (sym (turn_lem f turn rest t) ∙ e)
  ]

  Injects-only_if :
      (f f' : FaultSession) (turns : List Turn)
      → Injects timeout_at grace f turns f'
      → injection_turns timeout_at grace f turns ≡ (ok tt, f')
  unfolding injection_turn
  Injects-only_if f f' (turn ∷ rest) (injected in_progress s t h) =
      turn_lem f turn rest t ∙ rw h refl
  Injects-only_if f f' (turn ∷ rest) (injected stopping s t h) = turn_lem f turn rest t ∙ rw h refl
  Injects-only_if f f' (turn ∷ rest) (injected completed s t h) = turn_lem f turn rest t ∙ rw h refl
  Injects-only_if f f' (turn ∷ rest) (injected starting s t h) = absurd s
  Injects-only_if f f' (turn ∷ rest) (injected error s t h) = absurd s
  Injects-only_if f f' (turn ∷ rest) (unread {f₁} t h r) =
      turn_lem f turn rest t ∙ rw h (Injects-only_if f₁ f' rest r)
  Injects-only_if f f' (turn ∷ rest) (starts {f₁} t h u r) =
      turn_lem f turn rest t
      ∙ ap (judge turn rest) h
      ∙ rw (injection_turn, untargeted f₁ turn u) (Injects-only_if f₁ f' rest r)
  Injects-only_if f f' [] r = elim r [ ]

  Returns-judge :
      (turn : Turn) (rest : List Turn) (s : Stepped FaultStatus)
      → Returns (s.0)
      → ((f₁ : FaultSession) → Returns ((injection_turns timeout_at grace f₁ rest).0))
      → Returns ((judge turn rest s).0)
  unfolding injection_turn
  Returns-judge turn rest (crash c, f₁) h ih = h
  Returns-judge turn rest (err e, f₁) h ih = ih f₁
  Returns-judge turn rest (ok in_progress, f₁) h ih = tt
  Returns-judge turn rest (ok stopping, f₁) h ih = tt
  Returns-judge turn rest (ok completed, f₁) h ih = tt
  Returns-judge turn rest (ok error, f₁) h ih = tt
  Returns-judge turn rest (ok starting, f₁) h ih = elim (Bool-cases (is_untargeted grace f₁ turn)) [
    | inl u ↦ rw (injection_turn, u) tt
    | inr u ↦ rw (injection_turn, u) (ih f₁)
  ]

  injection_turns-Returns :
      (f : FaultSession) (turns : List Turn)
      → any (λ turn. ltb_ℤ timeout_at turn.checked_at) turns ≡ true
      → Returns ((injection_turns timeout_at grace f turns).0)
  injection_turns-Returns f [] late = cc
  injection_turns-Returns f (turn ∷ rest) late =
      elim (Bool-cases (ltb_ℤ timeout_at turn.checked_at)) [
        | inl l ↦ rw (late_lem f turn rest l) tt
        | inr t ↦
            let late' : any (λ turn. ltb_ℤ timeout_at turn.checked_at) rest ≡ true =
              sym (ap (λ b. b || any (λ turn. ltb_ℤ timeout_at turn.checked_at) rest) t) ∙ late in
            rw (turn_lem f turn rest t) (
              Returns-judge turn rest (get_status f turn.cluster)
                (get_status-Returns f turn.cluster) (λ f₁. injection_turns-Returns f₁ rest late'))
      ]

-- The wait succeeds exactly if, in turns that all begin at most ten seconds after it, the status
-- becomes InProgress, Stopping or Completed, and in each turn before could not be read, or was
-- Starting with the targets selected or with the five seconds of grace not over.
pub injection_iff :
    (now now' : ℤ) (f f' : FaultSession) (turns : List Turn)
    → (wait_for_injection_completed now now' f turns ≡ (ok tt, f'))
      ↔ Injects (now +ℤ pos (10 * second)) (now' +ℤ pos (5 * second)) f turns f'
unfolding wait_for_injection_completed
injection_iff now now' f f' turns = (Injects-if _ _ f f' turns, Injects-only_if _ _ f f' turns)

-- Once a turn begins later than ten seconds after the start, the wait is over by then, with a result,
-- an error or the panic of GetStatus.
pub injection_total :
    (now now' : ℤ) (f : FaultSession) (turns : List Turn)
    → any (λ turn. ltb_ℤ (now +ℤ pos (10 * second)) turn.checked_at) turns ≡ true
    → (wait_for_injection_completed now now' f turns).0 ≢ crash out_of_fuel
unfolding wait_for_injection_completed
injection_total now now' f turns late = λ e.
    subst Returns e
      (injection_turns-Returns (now +ℤ pos (10 * second)) (now' +ℤ pos (5 * second)) f turns late)
