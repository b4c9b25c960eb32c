-- ===== src/Chaos/Status/Keeps.antt =====
-- What a reading of the status keeps: a predicate of sessions that holds after each of the three places
-- where GetStatus of pkg/chaos-mesh/session.go changes the session.
use attacknet.Base.{
  ◌≡◌, inl, inr, refl, sym, subst, Bool, true, false, Option, none, some, List, [], ◌∷◌, length,
  Bool-cases, ◌==◌, ok, err, crash, failure, or_fail, if◌then◌else◌, String,
}
use attacknet.Base.Int.{ℤ}
use attacknet.Base.Dict.{Dict}
use attacknet.Chaos.Session.{
  FaultStatus, starting, ChaosRecord, Condition, Resource, Cluster, FaultSession, Stepped, after,
  check_conditions, check_target_selection_completed, filter_injected_pods,
  build_pods_under_test_slice,
}
use attacknet.Chaos.Status.{
  populate_pods_under_test, get_fault_records, count_record, count_records, get_status, status_of,
  no_counts, Counts,
}

pub after-keeps {ℓ} :
    (P : FaultSession → Type ℓ) {A B : Type 0} (m : Stepped A) (k : A → FaultSession → Stepped B)
    → P (m.1)
    → ((a : A) (f : FaultSession) → P f → P ((k a f).1))
    → P ((after m k).1)
after-keeps P (ok a, f) k h next = next a f h
after-keeps P (err e, f) k h next = h
after-keeps P (crash c, f) k h next = h

module _ {ℓ} (P : FaultSession → Type ℓ)
    (marked : (f : FaultSession) → P f → P (record f { target_selection_completed = true }))
    (populated : (f : FaultSession) (cluster : Cluster) (records : List ChaosRecord)
      → P f
      → P ((populate_pods_under_test f cluster records).1))
    (failing : (f : FaultSession) (pods : Dict ChaosRecord)
      → P f
      → P (record f { pods_failing_recovery = pods })) where
  check_conditions-keeps :
      (conditions : List Condition) (f : FaultSession) → P f → P ((check_conditions conditions f).1)
  unfolding check_conditions
  check_conditions-keeps [] f h = h
  check_conditions-keeps (c ∷ rest) f h = elim (Bool-cases c.is_selected) [
    | inl e ↦ elim (Bool-cases c.is_true) [
      | inl g ↦ rw (check_conditions, e, g) (marked f h)
      | inr g ↦ rw (check_conditions, e, g) h
    ]
    | inr e ↦ rw (check_conditions, e) (check_conditions-keeps rest f h)
  ]

  decoded-keeps :
      (f : FaultSession) (found : Option (List Condition))
      → P f
      → let r : Stepped Bool = elim found [
        | none ↦ (err (failure "Unable to decode status.chaosstatus.conditions"), f)
        | some conditions ↦ let (selected, f') = check_conditions conditions f in (ok selected, f')
      ] in
        P (r.1)
  decoded-keeps f none h = h
  decoded-keeps f (some conditions) h = check_conditions-keeps conditions f h

  selection-keeps :
      (f : FaultSession) (resource : Resource)
      → P f
      → P ((check_target_selection_completed f resource).1)
  unfolding check_target_selection_completed
  selection-keeps f resource h = elim (Bool-cases f.target_selection_completed) [
    | inl e ↦
        let g : check_target_selection_completed f resource ≡ (ok false, f) =
          simp (check_target_selection_completed, e) refl in
        subst (λ (p : Stepped Bool). P (p.1)) (sym g) h
    | inr e ↦
        let g : check_target_selection_completed f resource ≡ (elim resource.conditions [
          | none ↦ (err (failure "Unable to decode status.chaosstatus.conditions"), f)
          | some conditions ↦
              let (selected, f') = check_conditions conditions f in (ok selected, f')
        ]) =
          simp (check_target_selection_completed, e) refl in
        subst (λ (p : Stepped Bool). P (p.1)) (sym g) (decoded-keeps f resource.conditions h)
  ]

  count_records-keeps :
      (records : List ChaosRecord) (c : Counts) (f : FaultSession)
      → P f
      → P ((count_records records (c, f)).1)
  unfolding count_records count_record
  count_records-keeps [] c f h = h
  count_records-keeps (r ∷ rest) c f h = elim (Bool-cases (r.injected_count == 0)) [
    | inl e ↦ rw (count_records, count_record, e) (count_records-keeps rest _ f h)
    | inr e ↦ elim (Bool-cases (r.injected_count == r.recovered_count)) [
      | inl g ↦ rw (count_records, count_record, e, g) (count_records-keeps rest _ f h)
      | inr g ↦
          rw (count_records, count_record, e, g) (count_records-keeps rest _ _ (failing f _ h))
    ]
  ]

  read-keeps :
      (f : FaultSession) (cluster : Cluster) (selected : Bool) (found : Option (List ChaosRecord))
      → P f
      → let r : Stepped (Option (List ChaosRecord)) = elim found [
        | none ↦ (ok none, f)
        | some records ↦
            if selected
            then after
                (populate_pods_under_test f cluster records)
                (λ _ f'. (ok (some records), f'))
            else (ok (some records), f)
      ] in
        P (r.1)
  read-keeps f cluster selected none h = h
  read-keeps f cluster true (some records) h =
      after-keeps P (populate_pods_under_test f cluster records) _ (populated f cluster records h)
        (λ _ f' h'. h')
  read-keeps f cluster false (some records) h = h

  get_fault_records-keeps :
      (f : FaultSession) (cluster : Cluster) → P f → P ((get_fault_records f cluster).1)
  unfolding get_fault_records
  get_fault_records-keeps f cluster h =
      after-keeps P (or_fail cluster.resource "Unable to query for resource", f) _ h
        (λ resource f₁ h₁.
          after-keeps P (check_target_selection_completed f₁ resource) _
            (selection-keeps f₁ resource h₁)
            (λ selected f₂ h₂. read-keeps f₂ cluster selected resource.records h₂))

  pub get_status-keeps : (f : FaultSession) (cluster : Cluster) → P f → P ((get_status f cluster).1)
  unfolding get_status
  get_status-keeps f cluster h =
      after-keeps P (get_fault_records f cluster) _ (get_fault_records-keeps f cluster h)
        (λ found f₁ h₁. counted found f₁ h₁)
    where
      counted :
          (found : Option (List ChaosRecord)) (f₁ : FaultSession)
          → P f₁
          → let r : Stepped FaultStatus = elim found [
            | none ↦ (ok starting, f₁)
            | some records ↦
                let (counts, f₂) = count_records records (no_counts, f₁) in
                (
                  status_of counts
                      (length f₂.pods_failing_recovery)
                      f₂.pods_expected_missing
                      (length records),
                  f₂,
                )
          ] in
            P (r.1)
      counted none f₁ h₁ = h₁
      counted (some records) f₁ h₁ = count_records-keeps records no_counts f₁ h₁

-- What a session is from its start: none of it is changed.
pub record Identity : Type 0 where
  pub fault_type : String
  pub fault_action : String
  pub name : String
  pub test_end_time : Option ℤ

abbrev pub identity_of : FaultSession → Identity
identity_of f = record {
  fault_type = f.fault_type;
  fault_action = f.fault_action;
  name = f.name;
  test_end_time = f.test_end_time;
}

populate-identity :
    (i : Identity) (f : FaultSession) (cluster : Cluster) (records : List ChaosRecord)
    → identity_of f ≡ i
    → identity_of ((populate_pods_under_test f cluster records).1) ≡ i
unfolding populate_pods_under_test
populate-identity i f cluster records h = elim (Bool-cases f.checked_for_missing_pods) [
  | inl e ↦ rw (populate_pods_under_test, e) h
  | inr e ↦
      rw (populate_pods_under_test, e)
        (after-keeps (λ f'. identity_of f' ≡ i)
          (filter_injected_pods records, record f { checked_for_missing_pods = true }) _ h
          (λ injected f₁ h₁.
            after-keeps (λ f'. identity_of f' ≡ i)
              (build_pods_under_test_slice cluster _ injected, _) _ h₁ (λ pods f₂ h₂. h₂)))
]

-- The identity of a session is the same after each reading of its status.
pub get_status-identity :
    (f : FaultSession) (cluster : Cluster) → identity_of ((get_status f cluster).1) ≡ identity_of f
get_status-identity f cluster =
    get_status-keeps (λ f'. identity_of f' ≡ identity_of f) (λ f' h. h)
      (populate-identity (identity_of f)) (λ f' pods h. h) f cluster refl
