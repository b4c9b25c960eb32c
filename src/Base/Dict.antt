-- ===== src/Base/Dict.antt =====
-- Go's maps with text keys, as association lists with each key once. The order in
-- which Go walks a map is unspecified; where a result may depend on it, the order is an argument.
use Prim.Native.String.{String}
use mathlib.Core.Path.{◌≡◌, refl}
use mathlib.Core.Bool.{Bool, true, false}
use mathlib.Core.List.{List, [], ◌∷◌}
use mathlib.Core.Option.{Option, none, some}
use native.Mathlib.Omega.{arith}
use text.Mathlib.Text.{◌==◌ as str_eq}
use text.Mathlib.TextEquality.{eq_iff}
use attacknet.Base.Tests.{if◌then◌else◌}

abbrev pub Dict {ℓ} : Type ℓ → Type ℓ
Dict V = List (String × V)

module _ {ℓ} {V : Type ℓ} where
  unfoldable pub lookup : String → Dict V → Option V
  lookup key [] = none
  lookup key ((name, value) ∷ entries) = if str_eq name key then some value else lookup key entries

  -- m[key] = value, in place where the key is there.
  unfoldable pub insert : String → V → Dict V → Dict V
  insert key value [] = (key, value) ∷ []
  insert key value ((name, old) ∷ entries) =
      if str_eq name key then (name, value) ∷ entries else (name, old) ∷ insert key value entries

  abbrev pub has_some : Option V → Bool
  has_some none = false
  has_some (some _) = true

  -- `_, ok := m[key]`
  unfoldable pub has_key : String → Dict V → Bool
  has_key key entries = has_some (lookup key entries)

  pub lookup-insert :
      (key other : String) (value : V) (entries : Dict V)
      → lookup other (insert key value entries)
        ≡ (if str_eq key other then some value else lookup other entries)
  unfolding lookup insert
  lookup-insert key other value [] = refl
  lookup-insert key other value ((name, old) ∷ entries) =
      let rest = lookup-insert key other value entries in
      ground (arith, rest, eq_iff name key, eq_iff name other, eq_iff key other)
