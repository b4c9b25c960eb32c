-- ===== src/Executor/Recovery.antt =====
-- When waitForFaultRecovery of pkg/test_executor/executor.go succeeds.
use attacknet.Base.{◌≡◌, ◌↔◌, refl, ap, ◌∙◌, List, [], ◌∷◌, ok, err, crash}
use attacknet.Chaos.Session.{
  FaultStatus, starting, in_progress, stopping, completed, error, Cluster, FaultSession, Stepped,
  after,
}
use attacknet.Chaos.Status.{get_status}
use attacknet.Executor.Recover.{recovery_turn, wait_for_fault_recovery}

abbrev pub IsBusy : FaultStatus → Type 0
IsBusy in_progress = Unit
IsBusy stopping = Unit
IsBusy _ = ⊥

-- The status is read while the fault is in progress or stopping, until it is completed.
pub data Recovers : FaultSession → List Cluster → FaultSession → Type 0 where
  ends :
      {f f' : FaultSession} {cluster : Cluster} {rest : List Cluster}
      → get_status f cluster ≡ (ok completed, f')
      → Recovers f (cluster ∷ rest) f'
  waits :
      {f f₁ f' : FaultSession} {cluster : Cluster} {rest : List Cluster} (status : FaultStatus)
      → IsBusy status
      → get_status f cluster ≡ (ok status, f₁)
      → Recovers f₁ rest f'
      → Recovers f (cluster ∷ rest) f'

Recovers-if :
    (f f' : FaultSession) (clusters : List Cluster)
    → wait_for_fault_recovery f clusters ≡ (ok tt, f')
    → Recovers f clusters f'
unfolding wait_for_fault_recovery
Recovers-if f f' [] e = cc
Recovers-if f f' (cluster ∷ rest) e =
    step (get_status f cluster) refl (λ f₁ g. Recovers-if f₁ f' rest g) e
  where
    step :
        (s : Stepped FaultStatus)
        → get_status f cluster ≡ s
        → ((f₁ : FaultSession)
            → wait_for_fault_recovery f₁ rest ≡ (ok tt, f')
            → Recovers f₁ rest f')
        → after s (λ status f₁. recovery_turn status f₁ (wait_for_fault_recovery f₁ rest))
          ≡ (ok tt, f')
        → Recovers f (cluster ∷ rest) f'
    step (ok in_progress, f₁) h ih g = waits in_progress tt h (ih f₁ g)
    step (ok stopping, f₁) h ih g = waits stopping tt h (ih f₁ g)
    step (ok completed, f₁) h ih g =
        let same : f₁ ≡ f' = ap (λ (p : Stepped (Unit {0})). p.1) g in
        ends (h ∙ ap (λ x. (ok completed, x)) same)
    step (ok error, f₁) h ih g = cc
    step (ok starting, f₁) h ih g = cc
    step (err _, f₁) h ih g = cc
    step (crash _, f₁) h ih g = cc

Recovers-only_if :
    (f f' : FaultSession) (clusters : List Cluster)
    → Recovers f clusters f'
    → wait_for_fault_recovery f clusters ≡ (ok tt, f')
unfolding wait_for_fault_recovery
Recovers-only_if f f' (cluster ∷ rest) (ends e) = rw (wait_for_fault_recovery, e) refl
Recovers-only_if f f' (cluster ∷ rest) (waits {f₁} in_progress b e r) =
    rw (wait_for_fault_recovery, e) (Recovers-only_if f₁ f' rest r)
Recovers-only_if f f' (cluster ∷ rest) (waits {f₁} stopping b e r) =
    rw (wait_for_fault_recovery, e) (Recovers-only_if f₁ f' rest r)
Recovers-only_if f f' [] r = elim r [ ]
Recovers-only_if f f' (cluster ∷ rest) (waits starting b e r) = absurd b
Recovers-only_if f f' (cluster ∷ rest) (waits completed b e r) = absurd b
Recovers-only_if f f' (cluster ∷ rest) (waits error b e r) = absurd b

-- The wait succeeds exactly if each status that it reads is InProgress or Stopping until one is
-- Completed; the session is the one after the last reading.
pub recovery_iff :
    (f f' : FaultSession) (clusters : List Cluster)
    → (wait_for_fault_recovery f clusters ≡ (ok tt, f')) ↔ Recovers f clusters f'
recovery_iff f f' clusters = (Recovers-if f f' clusters, Recovers-only_if f f' clusters)
