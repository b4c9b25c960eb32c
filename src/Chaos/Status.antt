-- ===== src/Chaos/Status.antt =====
-- pkg/chaos-mesh/session.go: GetStatus and what it calls, over one answer of the cluster.
pub mod Report
pub mod Sound
pub mod Keeps
pub mod History
pub mod Fuel
use attacknet.Base.{
  ℕ, ◌+◌, Bool, true, false, ◌&&◌, Option, none, some, List, [], ◌∷◌, length, ltb, ◌==◌,
  if◌then◌else◌, String, Outcome, ok, err, crash, or_fail, unreachable_state, ◌>>=◌,
}
use attacknet.Base.Dict.{Dict, insert, has_key}
use attacknet.Base.Text.{str_eq}
use attacknet.Chaos.Session.{
  FaultStatus, starting, in_progress, stopping, completed, PodUnderTest, Event, ChaosRecord,
  Resource, Cluster, FaultSession, Stepped, after, check_target_selection_completed,
  filter_injected_pods, build_pods_under_test_slice,
}

-- How many pods the fault is to terminate.
unfoldable pub expected_missing : FaultSession → List String → ℕ
expected_missing f injected =
    if str_eq f.fault_type "PodChaos" && str_eq f.fault_action "pod-kill"
    then length injected
    else f.pods_expected_missing

unfoldable pub populate_pods_under_test :
    FaultSession → Cluster → List ChaosRecord → Stepped (Unit {0})
unfolding expected_missing
populate_pods_under_test f cluster records =
    let checked = record f { checked_for_missing_pods = true } in
    if f.checked_for_missing_pods
    then (ok tt, f)
    else after (filter_injected_pods records, checked)
        (λ injected f₁.
          let f₂ = record f₁ { pods_expected_missing = expected_missing f₁ injected } in
          after (build_pods_under_test_slice cluster (ltb 0 f₂.pods_expected_missing) injected, f₂)
            (λ pods f₃. (ok tt, record f₃ { pods_under_test = pods })))

-- `none` is a nil slice of records.
unfoldable pub get_fault_records : FaultSession → Cluster → Stepped (Option (List ChaosRecord))
unfolding check_target_selection_completed populate_pods_under_test
get_fault_records f cluster =
    after (or_fail cluster.resource "Unable to query for resource", f)
      (λ resource f₁. after (check_target_selection_completed f₁ resource) (λ targets_selected f₂.
        elim resource.records [
          | none ↦ (ok none, f₂)
          | some records ↦
              if targets_selected
              then after (populate_pods_under_test f₂ cluster records)
                  (λ _ f₃. (ok (some records), f₃))
              else (ok (some records), f₂)
        ]))

-- checkForFailedRecovery, from the last event to the first: the failures by their messages.
unfoldable pub check_for_failed_recovery :
    ChaosRecord → List Event → Dict ChaosRecord → Dict ChaosRecord
check_for_failed_recovery r [] failing = failing
check_for_failed_recovery r (event ∷ rest) failing =
    let later = check_for_failed_recovery r rest failing in
    if event.is_failed && event.is_recover
    then (if has_key event.message later then later else insert event.message r later)
    else later

pub record Counts : Type 0 where
  pub injected_and_recovered : ℕ
  pub injected_not_recovered : ℕ
  pub not_injected : ℕ

-- The body of the loop over the records.
unfoldable pub count_record : ChaosRecord → Counts × FaultSession → Counts × FaultSession
unfolding check_for_failed_recovery
count_record r (c, f) =
    if r.injected_count == 0
    then (record c { not_injected = c.not_injected + 1 }, f)
    else if r.injected_count == r.recovered_count
    then (record c { injected_and_recovered = c.injected_and_recovered + 1 }, f)
    else (
      record c { injected_not_recovered = c.injected_not_recovered + 1 },
      record f {
        pods_failing_recovery = check_for_failed_recovery r r.events f.pods_failing_recovery;
      },
    )

unfoldable pub count_records : List ChaosRecord → Counts × FaultSession → Counts × FaultSession
unfolding count_record
count_records [] state = state
count_records (r ∷ rest) state = count_records rest (count_record r state)

-- The status of the counts, of the pods that failed to recover and of those expected to be missing,
-- for a number of records.
unfoldable pub status_of : Counts → ℕ → ℕ → ℕ → Outcome FaultStatus
status_of c failing missing records =
    if ltb 0 c.not_injected
    then ok starting
    else if ltb missing c.injected_not_recovered && (c.injected_and_recovered == 0)
    then ok in_progress
    else if (c.injected_and_recovered + failing + missing) == records
    then ok completed
    else if ltb 0 c.injected_not_recovered && ltb 0 c.injected_and_recovered
    then ok stopping
    else crash unreachable_state

abbrev pub no_counts : Counts
no_counts = record { injected_and_recovered = 0; injected_not_recovered = 0; not_injected = 0 }

unfoldable pub get_status : FaultSession → Cluster → Stepped FaultStatus
unfolding get_fault_records count_records status_of
get_status f cluster = after (get_fault_records f cluster) (λ found f₁. elim found [
  | none ↦ (ok starting, f₁)
  | some records ↦
      let (counts, f₂) = count_records records (no_counts, f₁) in
      (
        status_of counts (length f₂.pods_failing_recovery) f₂.pods_expected_missing
            (length records),
        f₂,
      )
])
