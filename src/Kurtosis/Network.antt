-- ===== src/Kurtosis/Network.antt =====
-- When StartNetwork of pkg/kurtosis/kurtosis.go comes to an end.
use attacknet.Base.{
  ℕ, zero, suc, ◌≡◌, ◌↔◌, refl, Bool, true, false, List, [], ◌∷◌, length, All, crash, blocked,
  out_of_fuel,
}
use attacknet.Kurtosis.{Line, error, finished, other, Run, follow_run}

abbrev run_of : List Line → Bool → Run
run_of lines is_closed = record { lines = lines; is_closed = is_closed }

abbrev AllOther : List Line → Type 0
AllOther lines = All (λ line. line ≡ other) lines

-- A run without an error or an end is read to the end of its lines, and after that never returns.
closed-if :
    (lines : List Line)
    → follow_run (suc (length lines)) (run_of lines true) ≡ crash out_of_fuel
    → AllOther lines
unfolding follow_run
closed-if [] e = tt
closed-if (error ∷ rest) e = cc
closed-if (finished true ∷ rest) e = cc
closed-if (finished false ∷ rest) e = cc
closed-if (other ∷ rest) e = (refl, closed-if rest e)

closed-only_if :
    (lines : List Line) (fuel : ℕ)
    → AllOther lines
    → follow_run fuel (run_of lines true) ≡ crash out_of_fuel
unfolding follow_run
closed-only_if lines zero h = refl
closed-only_if [] (suc fuel) h = closed-only_if [] fuel h
closed-only_if (error ∷ rest) (suc fuel) h = let (e, _) = h in cc
closed-only_if (finished _ ∷ rest) (suc fuel) h = let (e, _) = h in cc
closed-only_if (other ∷ rest) (suc fuel) h = closed-only_if rest fuel h.1

open-if :
    (lines : List Line)
    → follow_run (suc (length lines)) (run_of lines false) ≡ crash blocked
    → AllOther lines
unfolding follow_run
open-if [] e = tt
open-if (error ∷ rest) e = cc
open-if (finished true ∷ rest) e = cc
open-if (finished false ∷ rest) e = cc
open-if (other ∷ rest) e = (refl, open-if rest e)

open-only_if :
    (lines : List Line)
    → AllOther lines
    → follow_run (suc (length lines)) (run_of lines false) ≡ crash blocked
unfolding follow_run
open-only_if [] h = refl
open-only_if (error ∷ rest) h = let (e, _) = h in cc
open-only_if (finished _ ∷ rest) h = let (e, _) = h in cc
open-only_if (other ∷ rest) h = open-only_if rest h.1

-- Following a run whose channel is closed after its lines goes on for ever, whatever the fuel, exactly if
-- no line is an error or the end of the run; with one more turn than lines it returns otherwise. If the
-- channel is left open, it waits for ever exactly in that case.
pub follow_run_endless_iff :
    (lines : List Line)
    → (((fuel : ℕ)
          → follow_run fuel (record { lines = lines; is_closed = true }) ≡ crash out_of_fuel)
        ↔ All (λ line. line ≡ other) lines)
      × ((follow_run (suc (length lines)) (record { lines = lines; is_closed = true })
            ≡ crash out_of_fuel)
          ↔ All (λ line. line ≡ other) lines)
      × ((follow_run (suc (length lines)) (record { lines = lines; is_closed = false })
            ≡ crash blocked)
          ↔ All (λ line. line ≡ other) lines)
follow_run_endless_iff lines = (
  ((λ e. closed-if lines (e (suc (length lines)))), λ h fuel. closed-only_if lines fuel h),
  (closed-if lines, closed-only_if lines (suc (length lines))),
  (open-if lines, open-only_if lines),
)
