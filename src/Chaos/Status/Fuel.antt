-- ===== src/Chaos/Status/Fuel.antt =====
-- How GetStatus of pkg/chaos-mesh/session.go can crash.
use attacknet.Base.{
  ℕ, arith, Option-cases, Bool-cases, inl, inr, get_elem?, Bool, true, false, Option, none, some,
  List, [], ◌∷◌, length, leb, if◌then◌else◌, Outcome, ok, err, crash, Crash, index_out_of_range,
  unreachable_state, String, or_fail, or_crash, ◌>>=◌,
}
use attacknet.Base.Text.{str_eq, split}
use attacknet.Chaos.Session.{
  ChaosRecord, Resource, Cluster, FaultSession, Stepped, after, check_target_selection_completed,
  filter_injected_pods, build_pods_under_test_slice,
}
use attacknet.Chaos.Status.{
  get_status, get_fault_records, populate_pods_under_test, status_of, Counts, no_counts,
  count_records,
}

abbrev IsPanic : Crash → Type 0
IsPanic index_out_of_range = Unit
IsPanic unreachable_state = Unit
IsPanic _ = ⊥

-- If it crashes, then by the panic of GetStatus or by an index out of range.
abbrev pub Returns {ℓ} : {A : Type ℓ} → Outcome A → Type 0
Returns (ok _) = Unit
Returns (err _) = Unit
Returns (crash c) = IsPanic c

Returns->>= {ℓ κ} :
    {A : Type ℓ} {B : Type κ} (m : Outcome A) (f : A → Outcome B)
    → Returns m
    → ((a : A) → Returns (f a))
    → Returns (m >>= f)
Returns->>= (ok a) f h k = k a
Returns->>= (err e) f h k = tt
Returns->>= (crash c) f h k = h

Returns-after :
    {A B : Type 0} (s : Stepped A) (k : A → FaultSession → Stepped B)
    → Returns (s.0)
    → ((a : A) (f : FaultSession) → Returns ((k a f).0))
    → Returns ((after s k).0)
Returns-after (ok a, f) k h g = g a f
Returns-after (err e, f) k h g = tt
Returns-after (crash c, f) k h g = h

Returns-or_fail : {A : Type 0} (o : Option A) (message : String) → Returns (or_fail o message)
Returns-or_fail none message = tt
Returns-or_fail (some a) message = tt

Returns-if :
    {A : Type 0} (b : Bool) (x y : Outcome A) → Returns x → Returns y → Returns (if b then x else y)
Returns-if true x y h k = h
Returns-if false x y h k = k

Returns-or_crash : {A : Type 0} (o : Option A) → Returns (or_crash o index_out_of_range)
Returns-or_crash none = tt
Returns-or_crash (some a) = tt

filter_injected_pods-Returns : (records : List ChaosRecord) → Returns (filter_injected_pods records)
unfolding filter_injected_pods
filter_injected_pods-Returns [] = tt
filter_injected_pods-Returns (r ∷ rest) =
    let ih = filter_injected_pods-Returns rest in
    Returns-if (str_eq r.phase "Injected") _ _
      (Returns-if (leb (length (split b'/' r.id)) 2) _ _ tt (
        Returns->>= (or_crash (get_elem? (split b'/' r.id) 1) index_out_of_range) _
          (Returns-or_crash _) (λ pod. Returns->>= (filter_injected_pods rest) _ ih (λ pods. tt))))
      ih

build_pods-Returns :
    (cluster : Cluster) (expect_death : Bool) (names : List String)
    → Returns (build_pods_under_test_slice cluster expect_death names)
unfolding build_pods_under_test_slice
build_pods-Returns cluster expect_death [] = tt
build_pods-Returns cluster expect_death (name ∷ rest) =
    Returns->>= (or_fail (cluster.pod_labels name) "unable to query for pod") _
      (Returns-or_fail _ _)
      (λ answer. Returns->>= (or_fail answer "pod had no labels") _ (Returns-or_fail _ _) (λ labels.
        Returns->>= (build_pods_under_test_slice cluster expect_death rest) _
          (build_pods-Returns cluster expect_death rest) (λ pods. tt)))

populate-Returns :
    (f : FaultSession) (cluster : Cluster) (records : List ChaosRecord)
    → Returns ((populate_pods_under_test f cluster records).0)
unfolding populate_pods_under_test
populate-Returns f cluster records = elim (Bool-cases f.checked_for_missing_pods) [
  | inl e ↦ rw (populate_pods_under_test, e) tt
  | inr e ↦
      rw (populate_pods_under_test, e)
        (Returns-after (filter_injected_pods records, record f { checked_for_missing_pods = true })
          _ (filter_injected_pods-Returns records)
          (λ injected f₁.
            Returns-after (build_pods_under_test_slice cluster _ injected, _) _
              (build_pods-Returns cluster _ injected) (λ pods f₂. tt)))
]

check_target-Returns :
    (f : FaultSession) (resource : Resource)
    → Returns ((check_target_selection_completed f resource).0)
unfolding check_target_selection_completed
check_target-Returns f resource = elim (Bool-cases f.target_selection_completed) [
  | inl e ↦ rw (check_target_selection_completed, e) tt
  | inr e ↦ elim (Option-cases resource.conditions) [
    | inl n ↦ rw (check_target_selection_completed, e, n) tt
    | inr (conditions, n) ↦ rw (check_target_selection_completed, e, n) tt
  ]
]

get_fault_records-Returns :
    (f : FaultSession) (cluster : Cluster) → Returns ((get_fault_records f cluster).0)
unfolding get_fault_records
get_fault_records-Returns f cluster =
    Returns-after (or_fail cluster.resource "Unable to query for resource", f) _
      (Returns-or_fail _ _)
      (λ resource f₁.
        Returns-after (check_target_selection_completed f₁ resource) _
          (check_target-Returns f₁ resource)
          (λ selected f₂. elim (Option-cases resource.records) [
            | inl n ↦ rw n tt
            | inr (records, n) ↦ elim (Bool-cases selected) [
              | inl e ↦
                  rw (n, e)
                    (Returns-after (populate_pods_under_test f₂ cluster records) _
                      (populate-Returns f₂ cluster records) (λ _ f₃. tt))
              | inr e ↦ rw (n, e) tt
            ]
          ]))

status_of-Returns :
    (c : Counts) (failing missing records : ℕ) → Returns (status_of c failing missing records)
unfolding status_of
status_of-Returns c failing missing records = ground arith

pub get_status-Returns : (f : FaultSession) (cluster : Cluster) → Returns ((get_status f cluster).0)
unfolding get_status
get_status-Returns f cluster =
    Returns-after (get_fault_records f cluster) _ (get_fault_records-Returns f cluster) (λ found f₁.
      elim (Option-cases found) [
        | inl e ↦ rw e tt
        | inr (records, e) ↦
            let (counts, f₂) = count_records records (no_counts, f₁) in
            rw e (
              status_of-Returns counts (length f₂.pods_failing_recovery) f₂.pods_expected_missing
                (length records))
      ])
