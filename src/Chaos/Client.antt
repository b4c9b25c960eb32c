-- ===== src/Chaos/Client.antt =====
-- StartFault of pkg/chaos-mesh/client.go: a fault is created in the cluster, and its session begins.
use attacknet.Base.{◌/◌, suc, Bool, Option, some, String, Outcome, or_fail, require, ◌>>=◌, ◌>>◌}
use attacknet.Base.Int.{ℤ, pos, negsuc}
use attacknet.Base.Text.{◌++◌}
use attacknet.Golang.Decimal.{itoa}
use attacknet.Types.{Fields, value_at, as_text}
use attacknet.Chaos.Session.{Cluster, FaultSession, new_fault_session}

-- chaos-mesh's table of kinds and encoding/json: is a text the name of a kind, json.Marshal of a
-- spec, and does json.Unmarshal read a text into a resource of the kind? `none` is an error.
pub record ChaosApi : Type 0 where
  pub is_kind : String → Bool
  pub marshal : Fields → Option String
  pub unmarshals : String → String → Bool

-- The time at which the fault is named, whether the cluster creates it, and the time and the answer
-- with which its session begins.
pub record StartAnswer : Type 0 where
  pub named_at : ℤ
  pub is_created : Bool
  pub started_at : ℤ
  pub cluster : Cluster

-- UnixMicro of a time in nanoseconds, rounded down.
micro_text : ℤ → String
unfolding itoa
micro_text (pos n) = itoa (n / 1000)
micro_text (negsuc n) = "-" ++ itoa (suc (n / 1000))

unfoldable pub start_fault : ChaosApi → Fields → StartAnswer → Outcome FaultSession
unfolding value_at micro_text new_fault_session
start_fault api fault_spec answer = do
  kind_obj ← or_fail (value_at "kind" fault_spec) "unable to find 'kind' within fault spec"
  kind ← or_fail (as_text (some kind_obj)) "unable to cast faultSpec.Kind to string"
  require (api.is_kind kind) "invalid fault kind"
  marshalled ← or_fail (api.marshal fault_spec) "could not marshal faultspec"
  require (api.unmarshals kind marshalled) "could not unmarshal faultspec"
  require answer.is_created "could not create custom resource"
  new_fault_session answer.started_at answer.cluster fault_spec
      ("fault-" ++ micro_text answer.named_at)
