-- ===== src/Executor/Waits.antt =====
-- waitForInjectionCompleted and runWaitForFaultCompletion of pkg/test_executor/executor.go. A loop
-- takes what the clock and the cluster say, turn by turn, and ends in `out_of_fuel` when it needs
-- more. The pauses between two turns are left out.
use attacknet.Base.{
  ◌*◌, Bool, not, ◌&&◌, Option, none, some, List, [], ◌∷◌, ◌++◌, if◌then◌else◌, Outcome, ok, err,
  crash, failure, nil_pointer, out_of_fuel,
}
use attacknet.Base.Int.{ℤ, pos, ◌+ℤ◌, ◌-ℤ◌, ltb_ℤ}
use attacknet.Golang.Duration.{Duration, second}
use attacknet.Chaos.Session.{
  FaultStatus, starting, in_progress, stopping, completed, error, Cluster, FaultSession, Stepped,
}
use attacknet.Chaos.Status.{get_status}
use attacknet.Executor.Recover.{wait_for_fault_recovery}

-- The time at the start of a turn, the cluster's answer, and the time after it.
pub record Turn : Type 0 where
  pub checked_at : ℤ
  pub cluster : Cluster
  pub judged_at : ℤ

-- Have no targets been selected when the grace period is over?
abbrev pub is_untargeted : ℤ → FaultSession → Turn → Bool
is_untargeted grace f turn = not f.target_selection_completed && ltb_ℤ grace turn.judged_at

-- The switch on the status, over whose errors the loop passes; `again` is the next turn.
unfoldable pub injection_turn :
    ℤ → Turn → Outcome FaultStatus → FaultSession → Stepped (Unit {0}) → Stepped (Unit {0})
injection_turn grace turn (crash c) f again = (crash c, f)
injection_turn grace turn (err _) f again = again
injection_turn grace turn (ok in_progress) f again = (ok tt, f)
injection_turn grace turn (ok stopping) f again = (ok tt, f)
injection_turn grace turn (ok completed) f again = (ok tt, f)
injection_turn grace turn (ok error) f again =
    (err (failure "there was an unspecified error returned by chaos-mesh"), f)
injection_turn grace turn (ok starting) f again =
    if is_untargeted grace f turn
    then (err (failure "chaos-mesh was unable to identify any pods for injection"), f)
    else again

-- The loop, from the two deadlines.
unfoldable pub injection_turns : ℤ → ℤ → FaultSession → List Turn → Stepped (Unit {0})
unfolding get_status injection_turn
injection_turns timeout_at grace f [] = (crash out_of_fuel, f)
injection_turns timeout_at grace f (turn ∷ rest) =
    let (status, f') = get_status f turn.cluster in
    let turned = injection_turn grace turn status f' (injection_turns timeout_at grace f' rest) in
    if ltb_ℤ timeout_at turn.checked_at
    then (err (failure "chaos-mesh is still in a 'starting' state after 10 seconds"), f)
    else turned

-- The clock is read once for each deadline.
unfoldable pub wait_for_injection_completed :
    (now now' : ℤ) → FaultSession → List Turn → Stepped (Unit {0})
unfolding injection_turns ◌+ℤ◌
wait_for_injection_completed now now' f turns =
    injection_turns (now +ℤ pos (10 * second)) (now' +ℤ pos (5 * second)) f turns

-- For one session: the time when its turn comes, and the cluster's answers while it recovers.
pub record WaitAnswer : Type 0 where
  pub now : ℤ
  pub clusters : List Cluster

-- The pause until a fault ends, in the list of pauses.
abbrev pub pause_until : ℤ → ℤ → List Duration
pause_until now end = if ltb_ℤ now end then (end -ℤ now) ∷ [] else []

-- How a wait ends, with the sessions and the pauses that it has made.
abbrev pub Waited : Type 0
Waited = Outcome (Unit {0}) × List FaultSession × List Duration

-- The turn of the session `f`: its end time, how it recovers, and the rest of the loop.
unfoldable pub session_turn :
    Option ℤ → FaultSession → List FaultSession → ℤ → Stepped (Unit {0}) → Waited → Waited
unfolding ◌-ℤ◌
session_turn none f fs now recovered more = (crash nil_pointer, f ∷ fs, [])
session_turn (some end) f fs now (ok _, f') (outcome, fs', pauses) =
    (outcome, f' ∷ fs', pause_until now end ++ pauses)
session_turn (some end) f fs now (err e, f') more = (err e, f' ∷ fs, pause_until now end)
session_turn (some end) f fs now (crash c, f') more = (crash c, f' ∷ fs, pause_until now end)

-- The loop over the sessions, which are changed in place.
unfoldable pub wait_for_sessions : List FaultSession → List WaitAnswer → Waited
unfolding session_turn wait_for_fault_recovery
wait_for_sessions [] answers = (ok tt, [], [])
wait_for_sessions (f ∷ fs) [] = (crash out_of_fuel, f ∷ fs, [])
wait_for_sessions (f ∷ fs) (answer ∷ answers) =
    session_turn f.test_end_time f fs answer.now (wait_for_fault_recovery f answer.clusters)
      (wait_for_sessions fs answers)
