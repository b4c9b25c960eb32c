-- ===== src/Golang/Tests.antt =====
-- Values of the standard library's functions, as Go gives them.
use attacknet.Base.{◌*◌, ◌^◌, ◌-◌, ◌≡◌, refl, none, some, false, map, [], ◌∷◌}
use attacknet.Base.Int.{pos, negsuc}
use attacknet.Golang.Float
use attacknet.Golang.Float.{float32, fin}
use attacknet.Golang.Decimal.{itoa, padded, atoi, parse_uint32}
use attacknet.Golang.Duration.{parse_duration, duration_text}

third_rounds_up :
    Float.div float32 (Float.of_ℕ float32 1) (Float.of_ℕ float32 3)
    ≡ Float.constant float32 333333333 (10 ^ 9)
unfolding Float.div Float.of_ℕ
third_rounds_up = refl

tenth : Float.constant float32 1 10 ≡ fin false (13421773 * 2 ^ 122)
unfolding Float.constant
tenth = refl

durations :
    map parse_duration ("300s" ∷ "1m" ∷ "-1.5h" ∷ "" ∷ "5" ∷ "1h2m3.004s" ∷ "0.1ms" ∷ [])
    ≡ some (pos (300 * 10 ^ 9))
      ∷ some (pos (60 * 10 ^ 9))
      ∷ some (negsuc (5400 * 10 ^ 9 - 1))
      ∷ none
      ∷ none
      ∷ some (pos 3723004000000)
      ∷ some (pos 100000)
      ∷ []
unfolding parse_duration Float.mul Float.div Float.of_ℕ Float.to_int
durations = refl

texts :
    map duration_text (pos (300 * 10 ^ 9) ∷ pos 1500000 ∷ negsuc (3661000000000 - 1) ∷ pos 0 ∷ [])
    ≡ "5m0s" ∷ "1.5ms" ∷ "-1h1m1s" ∷ "0s" ∷ []
unfolding duration_text itoa
texts = refl

decimals : map (padded 3) (7 ∷ 42 ∷ 1234 ∷ []) ≡ "007" ∷ "042" ∷ "1234" ∷ []
unfolding padded
decimals = refl

parsed :
    map atoi ("-7" ∷ "+42" ∷ "4x" ∷ "" ∷ []) ≡ some (negsuc 6) ∷ some (pos 42) ∷ none ∷ none ∷ []
unfolding atoi
parsed = refl

parsed_uint : map parse_uint32 ("100" ∷ "4294967296" ∷ "-1" ∷ []) ≡ some 100 ∷ none ∷ none ∷ []
unfolding parse_uint32
parsed_uint = refl
