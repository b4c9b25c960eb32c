-- ===== src/Project/Initialized.antt =====
-- When InitializeProject of pkg/project/project.go makes a project.
use attacknet.Base.{
  ◌≡◌, ◌↔◌, refl, sym, ap, ◌∙◌, Bool, true, false, Bool-cases, inl, inr, not, ◌&&◌, ◌||◌, [], ◌∷◌,
  String, Outcome, ok, err, failure, if◌then◌else◌, arith,
}
use attacknet.Base.Dict.{has_key, insert, lookup-insert}
use attacknet.Base.Text.{str_eq}
use attacknet.Golang.Path.{join}
use attacknet.Golang.Disk.{directory, Disk, Os, to_stat, to_make, stat, mkdir}
use attacknet.Project.Directories.{
  may_exist, project_already_exists, initialize_directories_and_files, initialize_project,
}

-- Nothing is at the path, and the system makes a directory there.
abbrev pub can_make : Os → String → Disk → Bool
can_make os path disk = not (os.refuses to_make path) && not (has_key path disk)

abbrev pub is_ok : Outcome (Unit {0}) → Bool
is_ok (ok _) = true
is_ok _ = false

may_exist_lem :
    (os : Os) (path : String) (disk : Disk)
    → may_exist os path disk ≡ (os.refuses to_stat path || has_key path disk)
unfolding may_exist stat
may_exist_lem os path disk = elim (Bool-cases (os.refuses to_stat path)) [
  | inl r ↦ rw (may_exist, stat, r) refl
  | inr r ↦ elim (Bool-cases (has_key path disk)) [
    | inl h ↦ rw (may_exist, stat, r, h) refl
    | inr h ↦ rw (may_exist, stat, r, h) refl
  ]
]

mkdir_lem :
    (os : Os) (message path : String) (disk : Disk)
    → mkdir os message path disk ≡ (
        if can_make os path disk
        then (ok tt, insert path directory disk)
        else (err (failure message), disk))
unfolding mkdir
mkdir_lem os message path disk = elim (Bool-cases (os.refuses to_make path)) [
  | inl r ↦ rw (mkdir, r) refl
  | inr r ↦ elim (Bool-cases (has_key path disk)) [
    | inl h ↦ rw (mkdir, r, h) refl
    | inr h ↦ rw (mkdir, r, h) refl
  ]
]

has_key-insert :
    (path other : String) (disk : Disk)
    → str_eq path other ≡ false
    → has_key other (insert path directory disk) ≡ has_key other disk
unfolding has_key
has_key-insert path other disk n = rw (has_key, lookup-insert path other directory disk, n) refl

abbrev fst_of : Outcome (Unit {0}) × Disk → Outcome (Unit {0})
fst_of p = p.0

is_ok_lem :
    (b : Bool) (message : String) (made kept : Disk)
    → is_ok (fst_of (if b then (ok tt, made) else (err (failure message), kept))) ≡ b
is_ok_lem true message made kept = refl
is_ok_lem false message made kept = refl

made_lem :
    (os : Os) (suite config : String) (disk : Disk)
    → str_eq suite config ≡ false
    → is_ok ((initialize_directories_and_files os suite config disk).0)
      ≡ (can_make os suite disk && can_make os config disk)
unfolding initialize_directories_and_files
made_lem os suite config disk n = elim (Bool-cases (can_make os suite disk)) [
  | inr s ↦ rw (mkdir_lem os "mkdir" suite disk, s) refl
  | inl s ↦
      rw (mkdir_lem os "mkdir" suite disk, s)
        (rw
          (
            mkdir_lem os "mkdir" config (insert suite directory disk),
            has_key-insert suite config disk n,
          )
          (is_ok_lem (can_make os config disk) "mkdir" _ _))
]

refused_lem :
    (b : Bool) (message : String) (kept : Disk) (made : Outcome (Unit {0}) × Disk)
    → is_ok (fst_of (if b then (err (failure message), kept) else made)) ≡ (not b && is_ok (made.0))
refused_lem true message kept made = refl
refused_lem false message kept made = refl

conditions :
    (rs hs rc hc ms mc : Bool)
    → (not ((rs || hs) || (rc || hc)) && ((not ms && not hs) && (not mc && not hc)))
      ≡ (((not ms && not hs) && (not mc && not hc)) && not (rs || rc))
conditions rs hs rc hc ms mc = ground arith

both_true : (a b : Bool) → (a && b) ≡ true → (a ≡ true) × (b ≡ true)
both_true a b h = ground arith

and_true : (b : Bool) → b ≡ (b && true)
and_true b = ground arith

-- The error alone.
succeeds :
    (os : Os) (path suite config : String) (force : Bool) (disk : Disk)
    → join (path ∷ "test-suites" ∷ []) ≡ suite
    → join (path ∷ "network-configs" ∷ []) ≡ config
    → str_eq suite config ≡ false
    → is_ok ((initialize_project os path force disk).0) ≡ (
        (can_make os suite disk && can_make os config disk)
        && (force || not (os.refuses to_stat suite || os.refuses to_stat config)))
unfolding initialize_project project_already_exists
succeeds os path suite config true disk s c n =
    rw (s, c)
      (made_lem os suite config disk n
        ∙ and_true (can_make os suite disk && can_make os config disk))
succeeds os path suite config false disk s c n =
    rw (s, c)
      (refused_lem (may_exist os suite disk || may_exist os config disk) _ disk
          (initialize_directories_and_files os suite config disk)
        ∙ rw
            (
              may_exist_lem os suite disk,
              may_exist_lem os config disk,
              made_lem os suite config disk n,
            )
            (conditions (os.refuses to_stat suite) (has_key suite disk) (os.refuses to_stat config)
              (has_key config disk) (os.refuses to_make suite) (os.refuses to_make config)))

both_made :
    (os : Os) (suite config : String) (disk : Disk)
    → str_eq suite config ≡ false
    → (can_make os suite disk && can_make os config disk) ≡ true
    → initialize_directories_and_files os suite config disk
      ≡ (ok tt, insert config directory (insert suite directory disk))
unfolding initialize_directories_and_files
both_made os suite config disk n y =
    let (s, c) = both_true (can_make os suite disk) (can_make os config disk) y in
    rw (mkdir_lem os "mkdir" suite disk, s)
      (rw
        (
          mkdir_lem os "mkdir" config (insert suite directory disk),
          has_key-insert suite config disk n,
          c,
        )
        refl)

abbrev is_free : Os → String → String → Bool → Disk → Bool
is_free os suite config force disk =
    (can_make os suite disk && can_make os config disk)
    && (force || not (os.refuses to_stat suite || os.refuses to_stat config))

unseen :
    (rs hs rc hc ms mc : Bool)
    → (((not ms && not hs) && (not mc && not hc)) && not (rs || rc)) ≡ true
    → ((rs || hs) || (rc || hc)) ≡ false
unseen rs hs rc hc ms mc h = ground arith

skipped :
    (b : Bool) (message : String) (kept : Disk) (made : Outcome (Unit {0}) × Disk)
    → b ≡ false
    → (if b then (err (failure message), kept) else made) ≡ made
skipped true message kept made n = cc
skipped false message kept made n = refl

initialized :
    (os : Os) (path suite config : String) (force : Bool) (disk : Disk)
    → join (path ∷ "test-suites" ∷ []) ≡ suite
    → join (path ∷ "network-configs" ∷ []) ≡ config
    → str_eq suite config ≡ false
    → is_free os suite config force disk ≡ true
    → initialize_project os path force disk
      ≡ (ok tt, insert config directory (insert suite directory disk))
unfolding initialize_project project_already_exists
initialized os path suite config true disk s c n y =
    rw (s, c)
      (both_made os suite config disk n
        (and_true (can_make os suite disk && can_make os config disk) ∙ y))
initialized os path suite config false disk s c n y =
    let (m, _) =
      both_true (can_make os suite disk && can_make os config disk)
        (not (os.refuses to_stat suite || os.refuses to_stat config)) y in
    let none_seen : (may_exist os suite disk || may_exist os config disk) ≡ false =
      rw (may_exist_lem os suite disk, may_exist_lem os config disk)
        (unseen (os.refuses to_stat suite) (has_key suite disk) (os.refuses to_stat config)
          (has_key config disk) (os.refuses to_make suite) (os.refuses to_make config) y) in
    rw (s, c)
      (skipped (may_exist os suite disk || may_exist os config disk) _ disk
          (initialize_directories_and_files os suite config disk) none_seen
        ∙ both_made os suite config disk n m)

-- Where the paths of a project's two directories differ, the project is initialized, which leaves the
-- disk with exactly these two directories added, exactly if nothing is at either path and the system
-- makes directories there, and the test for an existing project, if it is not skipped by force, could
-- read both paths: force never replaces a project that is there. Otherwise there is no success.
pub initialize_project_lem :
    (os : Os) (path suite config : String) (force : Bool) (disk : Disk)
    → join (path ∷ "test-suites" ∷ []) ≡ suite
    → join (path ∷ "network-configs" ∷ []) ≡ config
    → str_eq suite config ≡ false
    → (is_ok ((initialize_project os path force disk).0) ≡ (
        (can_make os suite disk && can_make os config disk)
        && (force || not (os.refuses to_stat suite || os.refuses to_stat config))))
      × ((initialize_project os path force disk
            ≡ (ok tt, insert config directory (insert suite directory disk)))
          ↔ (((can_make os suite disk && can_make os config disk)
                && (force || not (os.refuses to_stat suite || os.refuses to_stat config)))
              ≡ true))
initialize_project_lem os path suite config force disk s c n =
    let e = succeeds os path suite config force disk s c n in
    (
      e,
      (
        λ h. sym e ∙ ap (λ (p : Outcome (Unit {0}) × Disk). is_ok (p.0)) h,
        initialized os path suite config force disk s c n,
      ),
    )
