-- ===== src/Chaos/Status/Sound.antt =====
-- The pods under test of a session, and the one check that finds them: populatePodsUnderTest of
-- pkg/chaos-mesh/session.go.
use attacknet.Base.{
  suc, ◌<◌, ◌≡◌, ◌⊎◌, inl, inr, refl, sym, ap, ◌∙◌, subst, Bool, true, false, ◌&&◌, List, [], ◌∷◌,
  length, All, arith, Bool-cases, ltb, String, Outcome, ok, err, crash, or_fail, ok_of_bind,
  ok-injective, Outcome-cases,
}
use attacknet.Base.Int.{ℤ}
use attacknet.Base.Text.{str_eq, eq_iff}
use attacknet.Types.{Fields, value_at, as_text, as_table}
use attacknet.Chaos.Session.{
  PodUnderTest, ChaosRecord, Cluster, FaultSession, Stepped, after, new_fault_session, get_duration,
  filter_injected_pods, build_pods_under_test_slice,
}
use attacknet.Chaos.Status.{expected_missing, populate_pods_under_test}

-- Pods are on record only after the one check for missing pods; then they are expected to die exactly
-- if the fault terminates pods, and are as many as that; no other fault expects any to be missing.
abbrev pub IsSound : FaultSession → Type 0
IsSound f =
    ((f.checked_for_missing_pods ≡ false)
      → (f.pods_under_test ≡ []) × (f.pods_expected_missing ≡ 0))
    × ((0 < f.pods_expected_missing) → (f.fault_type ≡ "PodChaos") × (f.fault_action ≡ "pod-kill"))
    × All (λ pod. pod.expect_death ≡ ltb 0 f.pods_expected_missing) f.pods_under_test
    × ((f.pods_under_test ≡ [])
        ⊎ ((f.pods_expected_missing ≡ 0) ⊎ (length f.pods_under_test ≡ f.pods_expected_missing)))

build_pods_lem :
    (cluster : Cluster) (expect_death : Bool) (names : List String) (pods : List PodUnderTest)
    → build_pods_under_test_slice cluster expect_death names ≡ ok pods
    → All (λ pod. pod.expect_death ≡ expect_death) pods × (length pods ≡ length names)
unfolding build_pods_under_test_slice
build_pods_lem cluster expect_death [] pods e = rw (← ok-injective e) (tt, refl)
build_pods_lem cluster expect_death (name ∷ rest) pods e =
    let (answer, _, f₁) =
      ok_of_bind (or_fail (cluster.pod_labels name) "unable to query for pod") _ e in
    let (labels, _, f₂) = ok_of_bind (or_fail answer "pod had no labels") _ f₁ in
    let (more, h, f₃) = ok_of_bind (build_pods_under_test_slice cluster expect_death rest) _ f₂ in
    let (a, l) = build_pods_lem cluster expect_death rest more h in
    rw (← ok-injective f₃) ((refl, a), ap suc l)

pub IsSound-new :
    (now : ℤ) (cluster : Cluster) (fault_spec : Fields) (name : String) (f : FaultSession)
    → new_fault_session now cluster fault_spec name ≡ ok f
    → IsSound f
unfolding new_fault_session
IsSound-new now cluster fault_spec name f e =
    let (kind, _, f₁) =
      ok_of_bind
        (or_fail (as_text (value_at "kind" fault_spec)) "failed to decode faultSpec.kind to string")
        _ e in
    let (spec, _, f₂) =
      ok_of_bind
        (or_fail (as_table (value_at "spec" fault_spec))
          "failed to decode faultSpec.spec to map[string]interface{}")
        _ f₁ in
    let (duration, _, f₃) = ok_of_bind (get_duration cluster) _ f₂ in
    rw (← ok-injective f₃) (λ _. (refl, refl), λ lt. absurd (omega arith), tt, inl refl)

-- How many pods are expected to be missing, after the check found the injected ones.
expected_missing_lem :
    (f : FaultSession) (injected : List String)
    → f.pods_expected_missing ≡ 0
    → ((0 < expected_missing f injected)
        → (f.fault_type ≡ "PodChaos") × (f.fault_action ≡ "pod-kill"))
      × ((expected_missing f injected ≡ 0) ⊎ (expected_missing f injected ≡ length injected))
unfolding expected_missing
expected_missing_lem f injected none_yet =
    elim (Bool-cases (str_eq f.fault_type "PodChaos" && str_eq f.fault_action "pod-kill")) [
      | inl e ↦
          rw (expected_missing, e)
            (
              λ _.
                  ground
                    (arith, e, eq_iff f.fault_type "PodChaos", eq_iff f.fault_action "pod-kill"),
              inr refl,
            )
      | inr e ↦ rw (expected_missing, e) (λ lt. absurd (omega arith), inl none_yet)
    ]

-- The session after the check, if all went well, and if a pod had no labels.
IsSound-checked :
    (f : FaultSession) (injected : List String) (pods : List PodUnderTest)
    → IsSound f
    → f.checked_for_missing_pods ≡ false
    → (pods ≡ [])
      ⊎ (All (λ pod. pod.expect_death ≡ ltb 0 (expected_missing f injected)) pods
          × (length pods ≡ length injected))
    → IsSound (record f {
      checked_for_missing_pods = true;
      pods_expected_missing = expected_missing f injected;
      pods_under_test = pods;
    })
IsSound-checked f injected pods h new case =
    let (nothing, none_yet) = h.0 new in
    let (kinds, sizes) = expected_missing_lem f injected none_yet in
    elim case [
      | inl e ↦ (λ bad. cc, kinds, rw e tt, inl e)
      | inr (a, l) ↦
          (λ bad. cc, kinds, a, inr (elim sizes [ inl z ↦ inl z | inr n ↦ inr (l ∙ sym n) ]))
    ]

-- The pods' labels were looked up, or not.
IsSound-labelled :
    (f : FaultSession) (cluster : Cluster) (injected : List String)
    (found : Outcome (List PodUnderTest))
    → IsSound f
    → f.checked_for_missing_pods ≡ false
    → build_pods_under_test_slice cluster (ltb 0 (expected_missing f injected)) injected ≡ found
    → IsSound
        (after
          (
            found,
            record f {
              checked_for_missing_pods = true;
              pods_expected_missing = expected_missing f injected;
            },
          )
          (λ pods f₁. (ok tt, record f₁ { pods_under_test = pods }))).1
IsSound-labelled f cluster injected (ok pods) h new e =
    IsSound-checked f injected pods h new
      (inr (build_pods_lem cluster (ltb 0 (expected_missing f injected)) injected pods e))
IsSound-labelled f cluster injected (err _) h new e =
    IsSound-checked f injected f.pods_under_test h new (inl ((h.0 new).0))
IsSound-labelled f cluster injected (crash _) h new e =
    IsSound-checked f injected f.pods_under_test h new (inl ((h.0 new).0))

pub IsSound-populate :
    (f : FaultSession) (cluster : Cluster) (records : List ChaosRecord)
    → IsSound f
    → IsSound (populate_pods_under_test f cluster records).1
unfolding populate_pods_under_test expected_missing
IsSound-populate f cluster records h = elim (Bool-cases f.checked_for_missing_pods) [
  | inl e ↦
      let g : populate_pods_under_test f cluster records ≡ (ok tt, f) =
        simp (populate_pods_under_test, e) refl in
      subst (λ (p : Stepped (Unit {0})). IsSound (p.1)) (sym g) h
  | inr e ↦ elim (Outcome-cases (filter_injected_pods records)) [
    | inl (injected, k) ↦
        let missing = expected_missing f injected in
        let g : populate_pods_under_test f cluster records
            ≡ after
                (
                  build_pods_under_test_slice cluster (ltb 0 missing) injected,
                  record f { checked_for_missing_pods = true; pods_expected_missing = missing },
                )
                (λ pods f₁. (ok tt, record f₁ { pods_under_test = pods })) =
          simp (populate_pods_under_test, e, k) refl in
        subst (λ (p : Stepped (Unit {0})). IsSound (p.1)) (sym g)
          (IsSound-labelled f cluster injected
            (build_pods_under_test_slice cluster (ltb 0 missing) injected) h e refl)
    | inr (inl (er, k)) ↦
        let g : populate_pods_under_test f cluster records
            ≡ (err er, record f { checked_for_missing_pods = true }) =
          simp (populate_pods_under_test, e, k) refl in
        subst (λ (p : Stepped (Unit {0})). IsSound (p.1)) (sym g) (λ bad. cc, h.1, h.2, h.3)
    | inr (inr (c, k)) ↦
        let g : populate_pods_under_test f cluster records
            ≡ (crash c, record f { checked_for_missing_pods = true }) =
          simp (populate_pods_under_test, e, k) refl in
        subst (λ (p : Stepped (Unit {0})). IsSound (p.1)) (sym g) (λ bad. cc, h.1, h.2, h.3)
  ]
]
