-- ===== src/Project/Locations.antt =====
-- Where the files of a plan are, for pkg/plan/file.go and for pkg/project/config.go.
use attacknet.Base.{
  ◌≡◌, refl, sym, ap, ◌∙◌, false, Bool-cases, inl, inr, some, [], ◌∷◌, String, ok, ok_of_and_then,
}
use attacknet.Base.Dict.{lookup}
use attacknet.Base.Text.{cons_not_empty, ◌++◌, str_eq, cons-append, append_assoc}
use attacknet.Golang.Path.{join}
use attacknet.Golang.Disk.{file, Disk, Os, to_read, read_file}
use attacknet.Golang.Disk.{write_out}
use attacknet.Golang.Disk.Kept.{write_out-Same, write_out-ok}
use attacknet.Plan.Files.{paths_of, write_plans}
use attacknet.Plan.Entry.{suite_config}

pub write_plans-ok :
    (os : Os) (net_path suite_path net_config suite_config : String) (disk d : Disk)
    → str_eq suite_path net_path ≡ false
    → write_plans os net_path suite_path net_config suite_config disk ≡ (ok tt, d)
    → (lookup net_path d ≡ some (file net_config))
      × (lookup suite_path d ≡ some (file suite_config))
unfolding write_plans
write_plans-ok os net_path suite_path net_config suite_config disk d n e =
    let (_, d₁, w, e₁) = ok_of_and_then (write_out os _ _ _ net_path net_config disk) _ e in
    let kept = write_out-Same os net_path _ _ _ suite_path suite_config d₁ n in
    (
      ap (λ x. lookup net_path (x.1)) (sym e₁)
          ∙ kept
          ∙ write_out-ok os _ _ _ net_path net_config disk d₁ w,
      write_out-ok os _ _ _ suite_path suite_config d₁ d e₁,
    )

pub read_file-file :
    (os : Os) (path text : String) (disk : Disk)
    → os.refuses to_read path ≡ false
    → lookup path disk ≡ some (file text)
    → read_file os path disk ≡ some text
unfolding read_file
read_file-file os path text disk r e = rw (read_file, r, e) refl

append_not_empty : (s t : String) → str_eq s "" ≡ false → str_eq (s ++ t) "" ≡ false
append_not_empty String.[] t e = cc
append_not_empty (String.◌∷◌ c s) t e = rw (cons-append c s t) (cons_not_empty c (s ++ t))

-- Joining the two texts is joining the directories.
join_names :
    (dir first rest : String)
    → str_eq first "" ≡ false
    → join (dir ∷ (first ++ ("/" ++ rest)) ∷ []) ≡ join (dir ∷ first ∷ rest ∷ [])
unfolding join
join_names dir first rest a =
    let b = append_not_empty first ("/" ++ rest) a in
    elim (Bool-cases (str_eq dir "")) [ inl d ↦ rw (d, a, b) refl | inr d ↦ rw d refl ]

pub net_path-joined :
    (dir name : String)
    → (paths_of dir name).net_config_path
      ≡ join (dir ∷ "network-configs" ∷ (paths_of dir name).net_ref_path ∷ [])
net_path-joined dir name =
    ap (λ x. join (dir ∷ x ∷ []))
      (append_assoc "network-configs" "/" ("plan/" ++ (name ++ ".yaml")))
    ∙ join_names dir "network-configs" ("plan/" ++ (name ++ ".yaml")) refl

suite_name_text :
    (name : String)
    → "test-suites/plan/" ++ (name ++ ".yaml")
      ≡ "test-suites" ++ ("/" ++ (("plan/" ++ name) ++ ".yaml"))
suite_name_text name =
    append_assoc "test-suites" "/plan/" (name ++ ".yaml")
    ∙ ap (λ x. "test-suites" ++ x)
        (append_assoc "/" "plan/" (name ++ ".yaml")
          ∙ ap (λ x. "/" ++ x) (sym (append_assoc "plan/" name ".yaml")))

pub suite_path-joined :
    (dir name : String)
    → (paths_of dir name).plan_config_path
      ≡ join (dir ∷ "test-suites" ∷ (("plan/" ++ name) ++ ".yaml") ∷ [])
suite_path-joined dir name =
    ap (λ x. join (dir ∷ x ∷ [])) (suite_name_text name)
    ∙ join_names dir "test-suites" (("plan/" ++ name) ++ ".yaml") refl
