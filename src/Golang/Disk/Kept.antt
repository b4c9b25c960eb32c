-- ===== src/Golang/Disk/Kept.antt =====
-- What the functions of os leave on the disk.
use attacknet.Base.{
  ◌≡◌, refl, sym, ap, ◌∙◌, false, Bool-cases, inl, inr, some, ◌||◌, [], ◌∷◌, String, ok,
  if◌then◌else◌, and_then-keeps, ok_of_and_then, ok_of_test, arith,
}
use attacknet.Base.Dict.{lookup, insert, has_key, lookup-insert}
use attacknet.Base.Text.{◌++◌, str_eq, eq_iff, eq_refl, nil-append}
use attacknet.Golang.Disk.{
  Entry, file, Disk, Os, to_write, to_close, to_create, to_remove, without, remove, create, write,
  close_file, write_out, contents, is_directory,
}

-- The path holds what it held.
abbrev pub Same : String → Disk → Disk → Type 0
Same path before disk = lookup path disk ≡ lookup path before

lookup-without :
    (path other : String) (disk : Disk)
    → str_eq path other ≡ false
    → lookup other (without path disk) ≡ lookup other disk
unfolding lookup without
lookup-without path other [] n = refl
lookup-without path other ((name, entry) ∷ rest) n =
    let ih = lookup-without path other rest n in
    ground (arith, ih, n, eq_iff name path, eq_iff name other, eq_iff path other)

pub insert-Same :
    (path other : String) (entry : Entry) (disk : Disk)
    → str_eq path other ≡ false
    → Same other disk (insert path entry disk)
insert-Same path other entry disk n = rw (lookup-insert path other entry disk, n) refl

module _ (os : Os) (other : String) where
  pub remove-Same :
      (message path : String) (disk : Disk)
      → str_eq path other ≡ false
      → Same other disk ((remove os message path disk).1)
  unfolding remove
  remove-Same message path disk n = elim (Bool-cases (os.refuses to_remove path)) [
    | inl r ↦ rw r refl
    | inr r ↦ elim (Bool-cases (has_key path disk)) [
      | inl h ↦ rw (r, h) (lookup-without path other disk n)
      | inr h ↦ rw (r, h) refl
    ]
  ]

  create-Same :
      (message path : String) (disk : Disk)
      → str_eq path other ≡ false
      → Same other disk ((create os message path disk).1)
  unfolding create
  create-Same message path disk n =
      elim (Bool-cases (os.refuses to_create path || is_directory (lookup path disk))) [
        | inl r ↦ rw r refl
        | inr r ↦ rw r (insert-Same path other (file "") disk n)
      ]

  write-Same :
      (message path text : String) (disk : Disk)
      → str_eq path other ≡ false
      → Same other disk ((write os message path text disk).1)
  unfolding write
  write-Same message path text disk n = elim (Bool-cases (os.refuses to_write path)) [
    | inl r ↦ rw r refl
    | inr r ↦ rw r (insert-Same path other (file (contents (lookup path disk) ++ text)) disk n)
  ]

  close-Same :
      (message path : String) (disk : Disk) → Same other disk ((close_file os message path disk).1)
  unfolding close_file
  close-Same message path disk = elim (Bool-cases (os.refuses to_close path)) [
    | inl r ↦ rw r refl
    | inr r ↦ rw r refl
  ]

  pub write_out-Same :
      (open_error write_error close_error path text : String) (disk : Disk)
      → str_eq path other ≡ false
      → Same other disk ((write_out os open_error write_error close_error path text disk).1)
  unfolding write_out
  write_out-Same open_error write_error close_error path text disk n =
      and_then-keeps (Same other disk) (create os open_error path disk) _
        (create-Same open_error path disk n)
        (λ _ d h.
          and_then-keeps (Same other disk) (write os write_error path text d) _
            (write-Same write_error path text d n ∙ h)
            (λ _ d' h'. close-Same close_error path d' ∙ h'))

-- A file that was opened, written and closed holds the text.
pub write_out-ok :
    (os : Os) (open_error write_error close_error path text : String) (disk d : Disk)
    → write_out os open_error write_error close_error path text disk ≡ (ok tt, d)
    → lookup path d ≡ some (file text)
unfolding write_out create write close_file
write_out-ok os open_error write_error close_error path text disk d e =
    let (_, d₁, c, e₁) = ok_of_and_then (create os open_error path disk) _ e in
    let (_, d₂, w, e₂) = ok_of_and_then (write os write_error path text d₁) _ e₁ in
    let made : insert path (file "") disk ≡ d₁ = ok_of_test _ _ disk _ d₁ c in
    let wrote : insert path (file (contents (lookup path d₁) ++ text)) d₁ ≡ d₂ =
      ok_of_test _ _ d₁ _ d₂ w in
    let closed : d₂ ≡ d = ok_of_test _ _ d₂ _ d e₂ in
    let empty : lookup path d₁ ≡ some (file "") =
      ap (λ x. lookup path x) (sym made)
      ∙ lookup-insert path path (file "") disk
      ∙ ap (λ b. if b then some (file "") else lookup path disk) (eq_refl path) in
    ap (λ x. lookup path x) (sym (wrote ∙ closed))
    ∙ lookup-insert path path (file (contents (lookup path d₁) ++ text)) d₁
    ∙ ap (λ b. if b then some (file (contents (lookup path d₁) ++ text)) else lookup path d₁)
        (eq_refl path)
    ∙ ap (λ x. some (file (contents x ++ text))) empty
    ∙ ap (λ x. some (file x)) (nil-append text)
