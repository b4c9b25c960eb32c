-- ===== src/Health/Targets/Checked.antt =====
-- Which pods getPodsToHealthCheck of pkg/health/ethereum/util.go returns.
use attacknet.Base.{
  ◌≡◌, inl, inr, refl, sym, ap, ◌∙◌, subst, Bool, true, false, not, ◌&&◌, ◌||◌, any, Option, some,
  List, [], ◌∷◌, ◌++◌, map, Bool-cases, if◌then◌else◌, arith, String, ok, ok-injective,
}
use attacknet.Base.Dict.{Dict, lookup, insert, has_key, lookup-insert}
use attacknet.Base.Text.{◌++◌ as append, str_eq, eq_iff}
use attacknet.Chaos.Session
use attacknet.Chaos.Session.{PodUnderTest}
use attacknet.Cluster.Pods.{KubePod, pods_matching_label}
use attacknet.Health.Targets.{
  lookup_of, create_eth_network_checker, surviving_targets, bystanders_of, get_pods_to_health_check,
}

abbrev pub has_name : String → List KubePod → Bool
has_name name pods = any (λ pod. str_eq pod.name name) pods

abbrev pub is_under_test : String → List PodUnderTest → Bool
is_under_test name pods = any (λ pod. str_eq pod.name name) pods

any-append : (p : KubePod → Bool) (xs ys : List KubePod) → any p (xs ++ ys) ≡ any p xs || any p ys
any-append p [] ys = refl
any-append p (x ∷ xs) ys = ground (arith, any-append p xs ys)

lookup_of_lem :
    (name : String) (pods : List PodUnderTest) (d : Dict PodUnderTest)
    → has_key name (lookup_of pods d) ≡ is_under_test name pods || has_key name d
unfolding lookup_of has_key
lookup_of_lem name [] d = refl
lookup_of_lem name (pod ∷ rest) d =
    ground
      (arith, lookup_of_lem name rest (insert pod.name pod d), lookup-insert pod.name name pod d)

module _ (key value : String) where
  -- A pod of the name is under test, matches the label, and is not expected to die.
  abbrev pub survives : String → List PodUnderTest → Bool
  survives name pods =
      any
        (λ pod.
          str_eq pod.name name && (Session.matches_label pod key value && not pod.expect_death))
        pods

  surviving_targets_lem :
      (name : String) (pods : List PodUnderTest)
      → has_name name (surviving_targets key value pods) ≡ survives name pods
  unfolding surviving_targets
  surviving_targets_lem name [] = refl
  surviving_targets_lem name (pod ∷ rest) = ground (arith, surviving_targets_lem name rest)

bystanders_of_lem :
    (name : String) (under_test : Dict PodUnderTest) (pods : List KubePod)
    → has_name name (bystanders_of under_test pods)
      ≡ has_name name pods && not (has_key name under_test)
unfolding bystanders_of
bystanders_of_lem name under_test [] = refl
bystanders_of_lem name under_test (pod ∷ rest) =
    let ih = bystanders_of_lem name under_test rest in
    elim (Bool-cases (str_eq pod.name name)) [
      | inl e ↦
          let same : has_key pod.name under_test ≡ has_key name under_test =
            ap (λ n. has_key n under_test) ((eq_iff pod.name name).0 e) in
          ground (arith, ih, e, same)
      | inr e ↦ ground (arith, ih, e)
    ]

has_name-copies :
    (name : String) (pods : List KubePod)
    → has_name name (map (λ (pod : KubePod). record { name = pod.name; labels = pod.labels }) pods)
      ≡ has_name name pods
has_name-copies name [] = refl
has_name-copies name (pod ∷ rest) = ap (λ b. str_eq pod.name name || b) (has_name-copies name rest)

survives_only_under_test :
    (key value name : String) (pods : List PodUnderTest)
    → is_under_test name pods ≡ false
    → survives key value name pods ≡ false
survives_only_under_test key value name [] e = refl
survives_only_under_test key value name (pod ∷ rest) e = elim (Bool-cases (str_eq pod.name name)) [
  | inl h ↦ ground arith
  | inr h ↦
      let e' : is_under_test name rest ≡ false = ground arith in
      ground (arith, survives_only_under_test key value name rest e', h)
]

under_test_or_listed :
    (s u l : Bool) → (u ≡ false → s ≡ false) → s || (l && not (u || false)) ≡ (if u then s else l)
under_test_or_listed true true l h = refl
under_test_or_listed false true true h = refl
under_test_or_listed false true false h = refl
under_test_or_listed true false l h = let bad = h refl in cc
under_test_or_listed false false true h = refl
under_test_or_listed false false false h = refl

-- Of the pods returned for a label, one has a given name exactly if: where pods under test have the
-- name, one of them matches the label and is not expected to die; else the cluster lists one.
pub get_pods_to_health_check_lem :
    (list_pods : String → Option (List KubePod)) (pods : List PodUnderTest)
    (key value name : String) (listed checked : List KubePod)
    → list_pods (append key (append "=" value)) ≡ some listed
    → get_pods_to_health_check list_pods (create_eth_network_checker pods) key value ≡ ok checked
    → has_name name checked
      ≡ (if is_under_test name pods then survives key value name pods else has_name name listed)
unfolding get_pods_to_health_check create_eth_network_checker pods_matching_label has_key lookup
get_pods_to_health_check_lem list_pods pods key value name listed checked l e =
    let copies = map (λ (pod : KubePod). record { name = pod.name; labels = pod.labels }) listed in
    let made : get_pods_to_health_check list_pods (create_eth_network_checker pods) key value
        ≡ ok (surviving_targets key value pods ++ bystanders_of (lookup_of pods []) copies) =
      rw l refl in
    let split =
      any-append (λ pod. str_eq pod.name name) (surviving_targets key value pods)
        (bystanders_of (lookup_of pods []) copies) in
    subst
      (λ c.
        has_name name c
        ≡ (if is_under_test name pods then survives key value name pods else has_name name listed))
      (ok-injective (sym made ∙ e)) (split ∙ table)
  where
    table :
        has_name name (surviving_targets key value pods)
          || has_name name (
              bystanders_of
                (lookup_of pods [])
                (map (λ (pod : KubePod). record { name = pod.name; labels = pod.labels }) listed))
        ≡ (if is_under_test name pods then survives key value name pods else has_name name listed)
    table =
        let copies =
          map (λ (pod : KubePod). record { name = pod.name; labels = pod.labels }) listed in
        (λ i.
          surviving_targets_lem key value name pods i
          || (bystanders_of_lem name (lookup_of pods []) copies
                ∙ (λ j. has_name-copies name listed j && not (lookup_of_lem name pods [] j)))
              i)
        ∙ under_test_or_listed (survives key value name pods) (is_under_test name pods)
            (has_name name listed) (survives_only_under_test key value name pods)
