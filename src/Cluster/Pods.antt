-- ===== src/Cluster/Pods.antt =====
-- pkg/kubernetes/types.go and PodsMatchingLabel of kubernetes.go. What the API server lists for a
-- selector is an argument.
use attacknet.Base.{Bool, false, Option, none, some, List, map, String, Outcome, ok, or_fail, ◌>>=◌}
use attacknet.Base.Dict.{Dict, lookup}
use attacknet.Base.Text.{◌++◌, str_eq}
use attacknet.Chaos.Session.{PodUnderTest}

-- The interface KubePod as both of its implementations give it, Pod and PodUnderTest: GetName,
-- GetLabels, and MatchesLabel as a function of the labels.
pub record KubePod : Type 0 where
  pub name : String
  pub labels : Dict String

unfoldable pub matches_label : KubePod → String → String → Bool
unfolding lookup
matches_label pod key value = elim (lookup key pod.labels) [
  | none ↦ false
  | some v ↦ str_eq v value
]

-- The elements of the list that ToKubePods makes.
abbrev pub to_kube_pod : PodUnderTest → KubePod
to_kube_pod pod = record { name = pod.name; labels = pod.labels }

-- `list_pods` is the API server's list for a label selector; `none` is an error.
unfoldable pub pods_matching_label :
    (String → Option (List KubePod)) → String → String → Outcome (List KubePod)
pods_matching_label list_pods key value = do
  pods ← or_fail (list_pods (key ++ ("=" ++ value))) "unable to list pods"
  ok (map (λ pod. record { name = pod.name; labels = pod.labels }) pods)
