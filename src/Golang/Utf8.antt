-- ===== src/Golang/Utf8.antt =====
-- The bytes of a Go text, which is UTF-8, and s[n:] on them.
use Prim.Native.Char.{Char, code}
use attacknet.Base.{
  ℕ, zero, suc, ◌+◌, ◌/◌, ◌%◌, ◌<◌, ◌≡◌, ◌↔◌, refl, Option, none, some, List, [], ◌∷◌, ◌++◌, length,
  ltb, if◌then◌else◌, String, arith,
}

-- The encoding of a character.
unfoldable pub utf8_char : Char → List ℕ
utf8_char c =
    let n = code c in
    if ltb n 128
    then n ∷ []
    else if ltb n 2048
    then (192 + n / 64) ∷ (128 + n % 64) ∷ []
    else if ltb n 65536
    then (224 + n / 4096) ∷ (128 + (n / 64) % 64) ∷ (128 + n % 64) ∷ []
    else (240 + n / 262144) ∷ (128 + (n / 4096) % 64) ∷ (128 + (n / 64) % 64) ∷ (128 + n % 64) ∷ []

unfoldable pub utf8 : String → List ℕ
unfolding utf8_char
utf8 String.[] = []
utf8 (String.◌∷◌ c s) = utf8_char c ++ utf8 s

-- s[n:], which panics when there are fewer bytes.
unfoldable pub slice_from : ℕ → List ℕ → Option (List ℕ)
slice_from zero bytes = some bytes
slice_from (suc n) [] = none
slice_from (suc n) (byte ∷ bytes) = slice_from n bytes

pub slice_from-none_iff :
    (n : ℕ) (bytes : List ℕ) → (slice_from n bytes ≡ none) ↔ (length bytes < n)
unfolding slice_from
slice_from-none_iff zero bytes = ((λ e. cc), λ h. absurd (omega (arith, h)))
slice_from-none_iff (suc n) [] = ((λ e. omega arith), λ h. refl)
slice_from-none_iff (suc n) (byte ∷ bytes) =
    let (to, from) = slice_from-none_iff n bytes in
    ((λ e. let h = to e in omega (arith, h)), λ h. from (omega (arith, h)))

utf8_char_lem : (c : Char) → 0 < length (utf8_char c)
unfolding utf8_char
utf8_char_lem c = ground arith

pub utf8_lem : (c : Char) (s : String) → 0 < length (utf8 (String.◌∷◌ c s))
unfolding utf8
utf8_lem c s = length-more (utf8_char c) (utf8 s) (utf8_char_lem c)
  where
    length-more : (xs ys : List ℕ) → 0 < length xs → 0 < length (xs ++ ys)
    length-more [] ys h = absurd (omega (arith, h))
    length-more (x ∷ xs) ys h = omega arith
