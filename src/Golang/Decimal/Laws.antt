-- ===== src/Golang/Decimal/Laws.antt =====
-- Decimal texts are read back as the number that they were written for, and hold digits only.
use Prim.Native.Char.{Char, code}
use attacknet.Base.{
  ℕ, zero, suc, ◌+◌, ◌-◌, ◌*◌, ◌/◌, ◌%◌, ◌<◌, ◌≡◌, ◌≢◌, refl, inl, inr, true, some, arith, ltb,
  String, Bool-cases, some, ap, ◌∙◌,
}
use attacknet.Base.Text.{◌++◌, cons-append, nil-append, Lacks, Lacks-append}
use attacknet.Golang.Decimal.{digit, format_onto, itoa, zeros, width, padded, is_digit, scan}

code-digit : (d : ℕ) → d < 10 → code (digit d) ≡ 48 + d
unfolding digit
code-digit zero h = refl
code-digit (suc zero) h = refl
code-digit (suc (suc zero)) h = refl
code-digit (suc (suc (suc zero))) h = refl
code-digit (suc (suc (suc (suc zero)))) h = refl
code-digit (suc (suc (suc (suc (suc zero))))) h = refl
code-digit (suc (suc (suc (suc (suc (suc zero)))))) h = refl
code-digit (suc (suc (suc (suc (suc (suc (suc zero))))))) h = refl
code-digit (suc (suc (suc (suc (suc (suc (suc (suc zero)))))))) h = refl
code-digit (suc (suc (suc (suc (suc (suc (suc (suc (suc zero))))))))) h = refl
code-digit (suc (suc (suc (suc (suc (suc (suc (suc (suc (suc d)))))))))) h = absurd (omega arith)

scan-cons :
    (n : ℕ) (c : Char) (s : String)
    → is_digit (code c) ≡ true
    → scan n (String.◌∷◌ c s) ≡ scan (n * 10 + (code c - 48)) s
unfolding scan
scan-cons n c s h = rw h

-- Reading the digit of `d` after the number `n`.
scan-digit : (n d : ℕ) (s : String) → d < 10 → scan n (String.◌∷◌ (digit d) s) ≡ scan (n * 10 + d) s
scan-digit n d s h =
    scan-cons n (digit d) s (rw (code-digit d h) (ground arith))
    ∙ ap (λ k. scan k s) (omega (arith, code-digit d h))

scan-format_onto :
    (rounds n : ℕ) (out : String) → n < rounds → scan 0 (format_onto rounds n out) ≡ scan n out
unfolding format_onto
scan-format_onto zero n out h = absurd (omega arith)
scan-format_onto (suc rounds) n out h = elim (Bool-cases (ltb n 10)) [
  | inl small ↦ rw small (scan-digit 0 n out (ground arith) ∙ ap (λ k. scan k out) (omega arith))
  | inr large ↦ rw large (
      scan-format_onto rounds (n / 10) (String.◌∷◌ (digit (n % 10)) out) (ground arith)
      ∙ scan-digit (n / 10) (n % 10) out (omega arith)
      ∙ ap (λ k. scan k out) (omega arith))
]

pub scan-itoa : (n : ℕ) → scan 0 (itoa n) ≡ some n
unfolding itoa scan
scan-itoa n = scan-format_onto (suc n) n "" (omega arith)

scan-zeros : (k : ℕ) (s : String) → scan 0 (zeros k ++ s) ≡ scan 0 s
unfolding zeros scan
scan-zeros zero s = rw nil-append
scan-zeros (suc k) s = rw cons-append (scan-zeros k s)

-- Padding does not change the number.
pub scan-padded : (w n : ℕ) → scan 0 (padded w n) ≡ some n
unfolding padded
scan-padded w n = scan-zeros (w - width (itoa n)) (itoa n) ∙ scan-itoa n

Lacks-digit : (d : ℕ) → d < 10 → code (digit d) ≢ b'-'
Lacks-digit d h e = absurd (omega (arith, code-digit d h))

Lacks-format_onto :
    (rounds n : ℕ) (out : String) → Lacks b'-' out → Lacks b'-' (format_onto rounds n out)
unfolding format_onto
Lacks-format_onto zero n out h = h
Lacks-format_onto (suc rounds) n out h = elim (Bool-cases (ltb n 10)) [
  | inl small ↦ rw small (Lacks-digit n (ground arith), h)
  | inr large ↦ rw large (
      Lacks-format_onto rounds (n / 10) (String.◌∷◌ (digit (n % 10)) out)
        (Lacks-digit (n % 10) (omega arith), h))
]

pub Lacks-itoa : (n : ℕ) → Lacks b'-' (itoa n)
unfolding itoa
Lacks-itoa n = Lacks-format_onto (suc n) n "" tt

Lacks-zeros : (k : ℕ) → Lacks b'-' (zeros k)
unfolding zeros
Lacks-zeros zero = tt
Lacks-zeros (suc k) = (omega arith, Lacks-zeros k)

pub Lacks-padded : (w n : ℕ) → Lacks b'-' (padded w n)
unfolding padded
Lacks-padded w n =
    Lacks-append b'-' (zeros (w - width (itoa n))) (itoa n) (Lacks-zeros _) (Lacks-itoa n)
