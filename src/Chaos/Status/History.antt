-- ===== src/Chaos/Status/History.antt =====
-- What holds of a fault session however often its status is read: pkg/chaos-mesh/session.go.
use attacknet.Base.{◌≡◌, String, ok}
use attacknet.Base.Int.{ℤ}
use attacknet.Types.{Fields}
use attacknet.Chaos.Session.{Cluster, FaultSession, new_fault_session}
use attacknet.Chaos.Status.{get_status}
use attacknet.Chaos.Status.Sound.{IsSound, IsSound-new, IsSound-populate}
use attacknet.Chaos.Status.Keeps.{get_status-keeps}

-- Sessions that a fault can come to: it starts, and its status is read any number of times.
pub data IsReachable : FaultSession → Type 0 where
  started :
      (now : ℤ) (cluster : Cluster) (fault_spec : Fields) (name : String) {f : FaultSession}
      → new_fault_session now cluster fault_spec name ≡ ok f
      → IsReachable f
  polled :
      {f : FaultSession} (cluster : Cluster) → IsReachable f → IsReachable (get_status f cluster).1

-- However often the status of a session is read, and whatever the cluster answers: pods are on record
-- only after the one check for missing pods; they are expected to die exactly if pods are expected to
-- be missing; only a fault that kills pods expects that, and then of as many pods as are on record,
-- if any are.
pub reachable-IsSound : (f : FaultSession) → IsReachable f → IsSound f
reachable-IsSound f (started now cluster fault_spec name e) =
    IsSound-new now cluster fault_spec name f e
reachable-IsSound f (polled {f = before} cluster r) =
    get_status-keeps IsSound (λ f' h. h) IsSound-populate (λ f' pods h. h) before cluster
      (reachable-IsSound before r)
