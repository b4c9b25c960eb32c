-- ===== src/Base/Text/Defs.antt =====
-- Texts: the functions of Go's strings and strconv that the program calls, and their laws. A Go
-- text is bytes and a `String` is characters; the functions here do not tell the two apart.
use Prim.Native.Nat.{ℕ}
use Prim.Native.Char.{Char, code}
pub use Prim.Native.String.{String, ◌++◌}
use mathlib.Core.Bool.{Bool, ◌||◌}
use mathlib.Core.List.{List, [], ◌∷◌}
use text.Mathlib.Text.{◌==◌, starts_with}
use attacknet.Base.Tests.{◌==◌ as nat_eq, if◌then◌else◌}
pub use text.Mathlib.TextEquality.{eq_iff}
pub use text.Mathlib.TextPositions.{eq_refl}
pub use text.Mathlib.TextLemmas.{nil-append, cons-append, append_assoc, append-nil}

-- s == t
abbrev pub str_eq : String → String → Bool
str_eq s t = s == t

abbrev pub prepend : Char → List String → List String
prepend c [] = (String.◌∷◌ c String.[]) ∷ []
prepend c (part ∷ parts) = String.◌∷◌ c part ∷ parts

-- strings.Split(s, sep) at a separator of one character, given by its code.
unfoldable pub split : ℕ → String → List String
split sep String.[] = String.[] ∷ []
split sep (String.◌∷◌ c s) =
    let parts = split sep s in if nat_eq (code c) sep then String.[] ∷ parts else prepend c parts

-- strings.Contains(s, t)
unfoldable pub contains : String → String → Bool
contains String.[] t = t == ""
contains (String.◌∷◌ c s) t = starts_with (String.◌∷◌ c s) t || contains s t
