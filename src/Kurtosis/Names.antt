-- ===== src/Kurtosis/Names.antt =====
-- The names of enclaves and of their namespaces in pkg/kurtosis/kurtosis.go.
use attacknet.Base.{
  ℕ, ◌<◌, ◌≡◌, ◌↔◌, refl, sym, ap, ◌∙◌, inl, inr, Option-cases, List, length, or_crash, arith,
  String, ok, crash, index_out_of_range,
}
use attacknet.Base.Text.{◌++◌, cons_not_empty, cons-append, nil-append}
use attacknet.Golang.Utf8.{utf8, utf8_char, slice_from, slice_from-none_iff, utf8_lem}
use attacknet.Kurtosis.{get_enclave_name}

crashes :
    (bytes : List ℕ)
    → (or_crash (slice_from 3 bytes) index_out_of_range ≡ crash index_out_of_range)
      ↔ (length bytes < 3)
crashes bytes =
    let (to, from) = slice_from-none_iff 3 bytes in
    (
      (λ e. elim (Option-cases (slice_from 3 bytes)) [
        | inl n ↦ to n
        | inr (rest, s) ↦
            let bad : ok rest ≡ crash index_out_of_range =
              sym (ap (λ o. or_crash o index_out_of_range) s) ∙ e in
            cc
      ]),
      λ h. ap (λ o. or_crash o index_out_of_range) (from h),
    )

panics_iff :
    (now : ℕ) (namespace : String)
    → (get_enclave_name now namespace ≡ crash index_out_of_range)
      ↔ ((0 < length (utf8 namespace)) × (length (utf8 namespace) < 3))
unfolding get_enclave_name utf8
panics_iff now String.[] = ((λ e. cc), λ h. absurd (omega (arith, h.0)))
panics_iff now (String.◌∷◌ c s) =
    let (to, from) = crashes (utf8 (String.◌∷◌ c s)) in
    rw (cons_not_empty c s) ((λ e. (utf8_lem c s, to e)), λ h. from h.1)

with_prefix :
    (name : String) → "kt-" ++ name ≡ String.◌∷◌ "k" (String.◌∷◌ "t" (String.◌∷◌ "-" name))
with_prefix name =
    cons-append "k" "t-" name
    ∙ ap (String.◌∷◌ "k") (
        cons-append "t" "-" name
        ∙ ap (String.◌∷◌ "t") (cons-append "-" "" name ∙ ap (String.◌∷◌ "-") (nil-append name)))

prefix_dropped : (now : ℕ) (name : String) → get_enclave_name now ("kt-" ++ name) ≡ ok (utf8 name)
unfolding get_enclave_name utf8 utf8_char slice_from
prefix_dropped now name =
    rw (with_prefix name, cons_not_empty "k" (String.◌∷◌ "t" (String.◌∷◌ "-" name))) refl

-- The enclave's name is found in its namespace: it panics exactly if the configured namespace has one or
-- two bytes, and for the namespace of an enclave it gives the bytes of the enclave's name.
pub get_enclave_name_lem :
    (now : ℕ) (namespace name : String)
    → ((get_enclave_name now namespace ≡ crash index_out_of_range)
        ↔ ((0 < length (utf8 namespace)) × (length (utf8 namespace) < 3)))
      × (get_enclave_name now ("kt-" ++ name) ≡ ok (utf8 name))
get_enclave_name_lem now namespace name = (panics_iff now namespace, prefix_dropped now name)
