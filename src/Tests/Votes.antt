-- ===== src/Tests/Votes.antt =====
-- Four votes of which three are for one block number, and the property of votes at them.
use attacknet.Base.{List, [], ◌∷◌, length, ◌==◌, ◌≡◌, refl}
use attacknet.Base.Text.{str_eq}
use mathlib.Core.List.{reverse}
use mathlib.Core.List.Permᴰ
use attacknet.Health.Votes.{ClientForkChoice, determine_fork_consensus}
use attacknet.Health.Votes.Plurality.{IsPlurality, fork_consensus-IsPlurality}

abbrev pub four_votes : List ClientForkChoice
four_votes =
    record { pod_name = "el-01"; block_number = 10; block_hash = "0xaa" }
    ∷ record { pod_name = "el-02"; block_number = 9; block_hash = "0xcc" }
    ∷ record { pod_name = "el-03"; block_number = 10; block_hash = "0xbb" }
    ∷ record { pod_name = "el-04"; block_number = 10; block_hash = "0xaa" }
    ∷ []

division :
    let r = determine_fork_consensus (λ groups. reverse groups) (λ groups. groups) four_votes in
    (length r.consensus_block_num ≡ 3)
    × (length r.wrong_block_num ≡ 1)
    × (length r.consensus_block_hash ≡ 2)
    × (length r.wrong_block_hash ≡ 1)
unfolding determine_fork_consensus
division = (refl, refl, refl, refl)

fork_consensus-IsPlurality_example :
    let r = determine_fork_consensus (λ groups. reverse groups) (λ groups. groups) four_votes in
    IsPlurality
      (λ a b. a == b)
      (λ c. c.block_number)
      four_votes
      r.consensus_block_num
      r.wrong_block_num
    × IsPlurality
        (λ a b. str_eq a b)
        (λ c. c.block_hash)
        r.consensus_block_num
        r.consensus_block_hash
        r.wrong_block_hash
fork_consensus-IsPlurality_example =
    fork_consensus-IsPlurality (λ groups. reverse groups) (λ groups. groups) four_votes
      (λ groups. Permᴰ.symm (Permᴰ.reverse groups)) (λ groups. Permᴰ.refl groups)
