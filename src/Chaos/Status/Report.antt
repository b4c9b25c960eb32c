-- ===== src/Chaos/Status/Report.antt =====
-- What GetStatus of pkg/chaos-mesh/session.go reports, and when it panics.
use attacknet.Base.{
  ℕ, suc, ◌+◌, ◌<◌, ◌≤◌, ◌≡◌, ◌≢◌, ◌↔◌, ◌⊎◌, inl, inr, sym, subst, List, [], ◌∷◌, length, arith,
  ◌==◌, some, Outcome, ok, crash, unreachable_state, if◌then◌else◌,
}
use attacknet.Chaos.Session.{
  FaultStatus, starting, in_progress, stopping, completed, error, ChaosRecord, Cluster,
  FaultSession, Stepped,
}
use attacknet.Chaos.Status.{
  get_status, get_fault_records, Counts, no_counts, count_record, count_records, status_of,
}

-- The records by what chaos-mesh did with their pods.
abbrev pub waiting : List ChaosRecord → ℕ
waiting [] = 0
waiting (r ∷ rest) = if r.injected_count == 0 then suc (waiting rest) else waiting rest

abbrev pub recovered : List ChaosRecord → ℕ
recovered [] = 0
recovered (r ∷ rest) =
    if r.injected_count == 0
    then recovered rest
    else if r.injected_count == r.recovered_count
    then suc (recovered rest)
    else recovered rest

abbrev pub affected : List ChaosRecord → ℕ
affected [] = 0
affected (r ∷ rest) =
    if r.injected_count == 0
    then affected rest
    else if r.injected_count == r.recovered_count
    then affected rest
    else suc (affected rest)

-- The loop counts the records of each kind.
count_records_lem :
    (records : List ChaosRecord) (c : Counts) (f : FaultSession)
    → let c' = (count_records records (c, f)).0 in
      (c'.injected_and_recovered ≡ c.injected_and_recovered + recovered records)
      × (c'.injected_not_recovered ≡ c.injected_not_recovered + affected records)
      × (c'.not_injected ≡ c.not_injected + waiting records)
unfolding count_records count_record
count_records_lem [] c f = (omega arith, omega arith, omega arith)
count_records_lem (r ∷ rest) c f =
    let step = count_record r (c, f) in
    let (a, b, d) = count_records_lem rest (step.0) (step.1) in ground (arith, a, b, d)

partition :
    (records : List ChaosRecord)
    → recovered records + affected records + waiting records ≡ length records
partition [] = omega arith
partition (r ∷ rest) = ground (arith, partition rest)

-- The status by how many records have recovered, are affected and wait, and by how many failed
-- recoveries are on record and how many pods the fault is to terminate.
abbrev pub IsStatus : FaultStatus → ℕ → ℕ → ℕ → ℕ → ℕ → Type 0
IsStatus starting rec aff wait failing missing = 0 < wait
IsStatus in_progress rec aff wait failing missing = (wait ≡ 0) × (rec ≡ 0) × (missing < aff)
IsStatus completed rec aff wait failing missing =
    (wait ≡ 0) × (failing + missing ≡ aff) × ((rec ≡ 0) → aff ≤ missing)
IsStatus stopping rec aff wait failing missing =
    (wait ≡ 0) × (0 < aff) × (0 < rec) × (failing + missing ≢ aff)
IsStatus error rec aff wait failing missing = ⊥

-- The numbers that GetStatus takes to be out of reach.
abbrev pub IsStuck : ℕ → ℕ → ℕ → ℕ → ℕ → Type 0
IsStuck rec aff wait failing missing =
    (wait ≡ 0)
    × (failing + missing ≢ aff)
    × (((aff ≡ 0) × (0 < rec)) ⊎ ((rec ≡ 0) × (aff ≤ missing)))

module _ (rec aff wait failing missing : ℕ) where
  abbrev counts : Counts
  counts = record {
    injected_and_recovered = rec;
    injected_not_recovered = aff;
    not_injected = wait;
  }

  abbrev outcome : Outcome FaultStatus
  outcome = status_of counts failing missing (rec + aff + wait)

  IsStatus-if : (s : FaultStatus) → outcome ≡ ok s → IsStatus s rec aff wait failing missing
  unfolding status_of
  IsStatus-if starting e = ground arith
  IsStatus-if in_progress e = ground arith
  IsStatus-if completed e = ground arith
  IsStatus-if stopping e = ground arith
  IsStatus-if error e = ground arith

  IsStatus-only_if : (s : FaultStatus) → IsStatus s rec aff wait failing missing → outcome ≡ ok s
  unfolding status_of
  IsStatus-only_if starting h = ground arith
  IsStatus-only_if in_progress (w, r, a) = ground arith
  IsStatus-only_if completed (w, b, g) = ground arith
  IsStatus-only_if stopping (w, a, r, n) = ground arith
  IsStatus-only_if error h = absurd h

  IsStuck-if : outcome ≡ crash unreachable_state → IsStuck rec aff wait failing missing
  unfolding status_of
  IsStuck-if e = ground arith

  IsStuck-only_if : IsStuck rec aff wait failing missing → outcome ≡ crash unreachable_state
  unfolding status_of
  IsStuck-only_if (w, n, inl (a, r)) = ground arith
  IsStuck-only_if (w, n, inr (r, a)) = ground arith

counts_of :
    (records : List ChaosRecord) (f : FaultSession)
    → (count_records records (no_counts, f)).0
      ≡ counts (recovered records) (affected records) (waiting records) 0 0
counts_of records f =
    let (a, b, c) = count_records_lem records no_counts f in
    let a' : (count_records records (no_counts, f)).0.injected_and_recovered ≡ recovered records =
      omega (arith, a) in
    let b' : (count_records records (no_counts, f)).0.injected_not_recovered ≡ affected records =
      omega (arith, b) in
    let c' : (count_records records (no_counts, f)).0.not_injected ≡ waiting records =
      omega (arith, c) in
    λ k. record {
      injected_and_recovered = a' k;
      injected_not_recovered = b' k;
      not_injected = c' k;
    }

-- What is reported of a session and its records.
abbrev pub IsReport : List ChaosRecord → Stepped FaultStatus → Type 0
IsReport records (o, f) =
    ((s : FaultStatus)
      → (o ≡ ok s)
        ↔ IsStatus s (recovered records) (affected records) (waiting records)
            (length f.pods_failing_recovery) f.pods_expected_missing)
    × ((o ≡ crash unreachable_state)
        ↔ IsStuck (recovered records) (affected records) (waiting records)
            (length f.pods_failing_recovery) f.pods_expected_missing)

IsReport-status_of :
    (records : List ChaosRecord) (c : Counts) (n : ℕ) (f : FaultSession)
    → c ≡ counts (recovered records) (affected records) (waiting records) 0 0
    → n ≡ recovered records + affected records + waiting records
    → IsReport records (status_of c (length f.pods_failing_recovery) f.pods_expected_missing n, f)
IsReport-status_of records c n f e₁ e₂ =
    let rec = recovered records in
    let aff = affected records in
    let wait = waiting records in
    let failing = length f.pods_failing_recovery in
    let missing = f.pods_expected_missing in
    subst (λ (p : Counts × ℕ). IsReport records (status_of (p.0) failing missing (p.1), f))
      (λ k. (sym e₁ k, sym e₂ k))
      (
        λ s. (
          IsStatus-if rec aff wait failing missing s,
          IsStatus-only_if rec aff wait failing missing s,
        ),
        (IsStuck-if rec aff wait failing missing, IsStuck-only_if rec aff wait failing missing),
      )

-- When the records of a fault were read, GetStatus reports Starting while a record is not injected;
-- after that InProgress while no pod has recovered and more are affected than are to be terminated;
-- Completed if no more are affected than failed to recover or are to be terminated, which must be as
-- many; Stopping if some have recovered and some have not. It panics exactly if no record waits to be
-- injected, the affected pods are not as many as the failed recoveries and the pods to be terminated
-- together, and either every pod has recovered (none is affected and some have recovered), or no pod has
-- recovered and at most as many are affected as are to be terminated.
pub status-IsReport :
    (f f₁ : FaultSession) (cluster : Cluster) (records : List ChaosRecord)
    → get_fault_records f cluster ≡ (ok (some records), f₁)
    → IsReport records (get_status f cluster)
unfolding get_status
status-IsReport f f₁ cluster records e =
    rw (get_status, e)
      (IsReport-status_of records (count_records records (no_counts, f₁)).0 (length records)
        (count_records records (no_counts, f₁)).1 (counts_of records f₁) (sym (partition records)))
