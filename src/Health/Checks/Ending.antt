-- ===== src/Health/Checks/Ending.antt =====
-- How RunChecks of pkg/health/checker.go ends, and what becomes of the recovery times on the way.
use attacknet.Base.{
  ◌≡◌, ◌⊎◌, inl, inr, refl, ap, sym, ◌∙◌, true, false, Option, none, some, List, [], ◌∷◌, any,
  Outcome, ok, err, crash, Crash, Error, ℕ, ltb, ◌+◌, Bool-cases, ◌||◌,
}
use attacknet.Chaos.Session.{PodUnderTest}
use attacknet.Base.Dict.{Dict}
use attacknet.Health.Checks.{HealthCheckResult, all_checks_passed}
use attacknet.Health.Checks.Rounds.{
  Round, Answer, fails, panics, answers, run_all_checks, check_rounds, run_checks,
}

-- A turn whose checks fail, in the time allowed, is followed by the next one.
pub data Ends (under_test : Dict PodUnderTest) (latest_allowable : ℕ)
    : Option HealthCheckResult → List Round → Outcome HealthCheckResult → Type 0 where
  stops :
      {last : Option HealthCheckResult} {round : Round} {rest : List Round} (e : Error)
      → run_all_checks under_test last round.answer ≡ err e
      → Ends under_test latest_allowable last (round ∷ rest) (err e)
  crashes :
      {last : Option HealthCheckResult} {round : Round} {rest : List Round} (c : Crash)
      → run_all_checks under_test last round.answer ≡ crash c
      → Ends under_test latest_allowable last (round ∷ rest) (crash c)
  passes :
      {last : Option HealthCheckResult} {round : Round} {rest : List Round} (r : HealthCheckResult)
      → run_all_checks under_test last round.answer ≡ ok r
      → all_checks_passed r ≡ true
      → Ends under_test latest_allowable last (round ∷ rest) (ok r)
  elapses :
      {last : Option HealthCheckResult} {round : Round} {rest : List Round} (r : HealthCheckResult)
      → run_all_checks under_test last round.answer ≡ ok r
      → all_checks_passed r ≡ false
      → ltb latest_allowable round.now ≡ true
      → Ends under_test latest_allowable last (round ∷ rest) (ok r)
  continues :
      {last : Option HealthCheckResult} {round : Round} {rest : List Round}
      {o : Outcome HealthCheckResult} (r : HealthCheckResult)
      → run_all_checks under_test last round.answer ≡ ok r
      → all_checks_passed r ≡ false
      → ltb latest_allowable round.now ≡ false
      → Ends under_test latest_allowable (some r) rest o
      → Ends under_test latest_allowable last (round ∷ rest) o

pub run_all_checks-cases :
    (under_test : Dict PodUnderTest) (last : Option HealthCheckResult) (answer : Answer)
    → ((r : HealthCheckResult) × (run_all_checks under_test last answer ≡ ok r))
      ⊎ (((e : Error) × (run_all_checks under_test last answer ≡ err e))
          ⊎ ((c : Crash) × (run_all_checks under_test last answer ≡ crash c)))
unfolding run_all_checks
run_all_checks-cases under_test last (fails e) = inr (inl (e, refl))
run_all_checks-cases under_test last (panics c) = inr (inr (c, refl))
run_all_checks-cases under_test last (answers a b c d) = inl (_, refl)

check_rounds-Ends :
    (under_test : Dict PodUnderTest) (latest_allowable : ℕ) (last : Option HealthCheckResult)
    (rounds : List Round)
    → any (λ round. ltb latest_allowable round.now) rounds ≡ true
    → Ends under_test latest_allowable last rounds
        (check_rounds under_test latest_allowable last rounds)
unfolding check_rounds
check_rounds-Ends under_test latest_allowable last [] late = cc
check_rounds-Ends under_test latest_allowable last (round ∷ rest) late =
    elim (run_all_checks-cases under_test last round.answer) [
      | inr (inl (e, h)) ↦ rw (check_rounds, h) (stops e h)
      | inr (inr (c, h)) ↦ rw (check_rounds, h) (crashes c h)
      | inl (r, h) ↦ elim (Bool-cases (all_checks_passed r)) [
        | inl p ↦ rw (check_rounds, h, p) (passes r h p)
        | inr p ↦ elim (Bool-cases (ltb latest_allowable round.now)) [
          | inl l ↦ rw (check_rounds, h, p, l) (elapses r h p l)
          | inr l ↦
              let late' : any (λ r. ltb latest_allowable r.now) rest ≡ true =
                sym (ap (λ b. b || any (λ r. ltb latest_allowable r.now) rest) l) ∙ late in
              rw (check_rounds, h, p, l)
                (continues r h p l
                  (check_rounds-Ends under_test latest_allowable (some r) rest late'))
        ]
      ]
    ]

-- If the clock passes the grace period's end in some turn, the loop ends: with the error or the
-- panic of the first turn whose checks end in one, or with the result of the first turn in which
-- all checks pass or the time is over; each turn's checks are given the result of the turn before.
pub run_checks-Ends :
    (under_test : Dict PodUnderTest) (start grace_period : ℕ) (rounds : List Round)
    → any (λ round. ltb (start + grace_period) round.now) rounds ≡ true
    → Ends under_test
        (start + grace_period)
        none
        rounds
        (run_checks under_test start grace_period rounds)
unfolding run_checks
run_checks-Ends under_test start grace_period rounds late =
    check_rounds-Ends under_test (start + grace_period) none rounds late
