-- ===== src/Base/Text/Split.antt =====
-- How strings.Split takes a text apart at the separators between parts that hold none.
use Prim.Native.Char.{Char, code}
use Prim.Native.Nat.{ℕ}
use mathlib.Core.Path.{◌≡◌, refl, sym, ap, subst, ◌∙◌}
use mathlib.Core.Logic.{◌≢◌, inl, inr}
use mathlib.Core.Bool.{false}
use mathlib.Core.List.{List, [], ◌∷◌}
use attacknet.Base.Tests.{◌==◌, Bool-cases}
use native.Mathlib.Omega.{arith}
use text.Mathlib.Text.{starts_with}
use text.Mathlib.TextEquality.{starts_with_iff}
use text.Mathlib.TextLemmas.{cons-append, nil-append}
use attacknet.Base.Text.Defs.{String, ◌++◌, split, contains, str_eq, eq_iff}

-- No character of the text has the code.
abbrev pub Lacks : ℕ → String → Type 0
Lacks sep String.[] = Unit
Lacks sep (String.◌∷◌ c s) = (code c ≢ sep) × Lacks sep s

pub Lacks-append : (sep : ℕ) (s t : String) → Lacks sep s → Lacks sep t → Lacks sep (s ++ t)
Lacks-append sep String.[] t hs ht = rw nil-append ht
Lacks-append sep (String.◌∷◌ c s) t hs ht = rw cons-append (hs.0, Lacks-append sep s t hs.1 ht)

-- A text without a separator is one part.
pub split-Lacks : (sep : ℕ) (s : String) → Lacks sep s → split sep s ≡ s ∷ []
unfolding split
split-Lacks sep String.[] h = refl
split-Lacks sep (String.◌∷◌ c s) h = ground (arith, split-Lacks sep s h.1)

-- Up to the first dash.
pub split_dash : (s t : String) → Lacks b'-' s → split b'-' (s ++ ("-" ++ t)) ≡ s ∷ split b'-' t
unfolding split
split_dash String.[] t h = rw nil-append (rw cons-append (rw nil-append))
split_dash (String.◌∷◌ c s) t h = rw cons-append (ground (arith, split_dash s t h.1))

-- A split has a first part.
pub split_cons :
    (sep : ℕ) (s : String) → (part : String) × (parts : List String) × (split sep s ≡ part ∷ parts)
unfolding split
split_cons sep String.[] = (String.[], [], refl)
split_cons sep (String.◌∷◌ c s) = elim (Bool-cases (code c == sep)) [
  | inl e ↦ (String.[], split sep s, rw e refl)
  | inr e ↦ let (part, parts, f) = split_cons sep s in (String.◌∷◌ c part, parts, rw (e, f) refl)
]

abbrev first_code : String → ℕ
first_code String.[] = 0
first_code (String.◌∷◌ c s) = code c

-- Only a text with the comma first starts with it.
starts_with_comma :
    (c : Char) (s : String) → code c ≢ b',' → starts_with (String.◌∷◌ c s) "," ≡ false
starts_with_comma c s h = elim (Bool-cases (starts_with (String.◌∷◌ c s) ",")) [
  | inl e ↦
      let (rest, f) = (starts_with_iff (String.◌∷◌ c s) ",").0 e in
      let g : first_code ("," ++ rest) ≡ b',' = rw cons-append refl in
      absurd (h (sym (ap first_code f) ∙ g))
  | inr e ↦ e
]

pub contains_comma : (s : String) → Lacks b',' s → contains s "," ≡ false
unfolding contains
contains_comma String.[] h = refl
contains_comma (String.◌∷◌ c s) h = rw (contains, starts_with_comma c s h.0) (contains_comma s h.1)

-- The first part of a split holds no separator.
pub Lacks-split :
    (sep : ℕ) (s part : String) (parts : List String) → split sep s ≡ part ∷ parts → Lacks sep part
unfolding split
Lacks-split sep String.[] part parts e = let f : String.[] ≡ part = cc in subst (Lacks sep) f tt
Lacks-split sep (String.◌∷◌ c s) part parts e = elim (Bool-cases (code c == sep)) [
  | inl g ↦ let f : String.[] ≡ part = cc (rw (split, g) at e) in subst (Lacks sep) f tt
  | inr g ↦
      let (first, others, h) = split_cons sep s in
      let f : String.◌∷◌ c first ≡ part = cc (rw (split, g, h) at e) in
      subst (Lacks sep) f (ground arith, Lacks-split sep s first others h)
]

-- A text that begins with a character is not the empty one.
pub cons_not_empty : (c : Char) (s : String) → str_eq (String.◌∷◌ c s) "" ≡ false
cons_not_empty c s = elim (Bool-cases (str_eq (String.◌∷◌ c s) "")) [
  | inl e ↦ let same = (eq_iff (String.◌∷◌ c s) "").0 e in cc
  | inr e ↦ e
]
