-- ===== src/Cluster/Forwards/Retries.antt =====
-- When openPortForward of pkg/kubernetes/port_forward.go succeeds, and that it ends.
use attacknet.Base.{
  ℕ, zero, suc, ◌≤◌, ◌<◌, ◌≡◌, ◌≢◌, ◌↔◌, refl, some, List, [], ◌∷◌, length, take, get_elem?, All,
  arith, ok, crash, out_of_fuel,
}
use attacknet.Cluster.Forwards.{Attempt, not_created, ready, failed, timed_out, open_port_forward}

-- An attempt within the retries is ready, and those before it failed.
abbrev pub BecomesReady : ℕ → List Attempt → Type 0
BecomesReady retries attempts =
    (i : ℕ) × (i ≤ retries)
    × (get_elem? attempts i ≡ some ready)
    × All (λ attempt. attempt ≡ failed) (take i attempts)

BecomesReady-if :
    (retries : ℕ) (attempts : List Attempt)
    → open_port_forward retries attempts ≡ ok tt
    → BecomesReady retries attempts
unfolding open_port_forward
BecomesReady-if retries [] e = cc
BecomesReady-if retries (not_created ∷ rest) e = cc
BecomesReady-if retries (ready ∷ rest) e = (0, omega arith, refl, tt)
BecomesReady-if retries (timed_out ∷ rest) e = cc
BecomesReady-if zero (failed ∷ rest) e = cc
BecomesReady-if (suc retries) (failed ∷ rest) e =
    let (i, le, at, before) = BecomesReady-if retries rest e in
    (suc i, omega arith, at, (refl, before))

BecomesReady-only_if :
    (retries : ℕ) (attempts : List Attempt)
    → BecomesReady retries attempts
    → open_port_forward retries attempts ≡ ok tt
unfolding open_port_forward
BecomesReady-only_if retries [] (i, le, at, before) = cc
BecomesReady-only_if retries (a ∷ rest) (zero, le, at, before) =
    let is_ready : a ≡ ready = cc in rw is_ready refl
BecomesReady-only_if zero (a ∷ rest) (suc i, le, at, before) = absurd (omega arith)
BecomesReady-only_if (suc retries) (a ∷ rest) (suc i, le, at, (f, before)) =
    rw f (BecomesReady-only_if retries rest (i, omega arith, at, before))

open_port_forward_ends :
    (retries : ℕ) (attempts : List Attempt)
    → retries < length attempts
    → open_port_forward retries attempts ≢ crash out_of_fuel
unfolding open_port_forward
open_port_forward_ends retries [] lt e = absurd (omega arith)
open_port_forward_ends retries (not_created ∷ rest) lt e = cc
open_port_forward_ends retries (ready ∷ rest) lt e = cc
open_port_forward_ends retries (timed_out ∷ rest) lt e = cc
open_port_forward_ends zero (failed ∷ rest) lt e = cc
open_port_forward_ends (suc retries) (failed ∷ rest) lt e =
    open_port_forward_ends retries rest (omega arith) e

-- A port forward is opened exactly if one attempt among the first and the given number of retries
-- becomes ready and all attempts before it end in an error of the forwarding; no more attempts than
-- these are made.
pub open_port_forward_iff :
    (retries : ℕ) (attempts : List Attempt)
    → ((open_port_forward retries attempts ≡ ok tt) ↔ BecomesReady retries attempts)
      × (retries < length attempts → open_port_forward retries attempts ≢ crash out_of_fuel)
open_port_forward_iff retries attempts = (
  (BecomesReady-if retries attempts, BecomesReady-only_if retries attempts),
  open_port_forward_ends retries attempts,
)
