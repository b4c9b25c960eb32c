-- ===== src/Tests/Targeting.antt =====
-- Targeting: the table of pkg/plan/suite/targeting_test.go, and the properties at concrete inputs.
use attacknet.Base.{
  ◌≡◌, ◌≢◌, ◌<◌, ◌↔◌, refl, List, [], length, take, ok, err, crash, cannot_meet, index_out_of_range,
  arith, String, false,
}
use attacknet.Base.Text.{◌++◌, str_eq, eq_iff}
use attacknet.Golang.Float
use attacknet.Plan.Network.Nodes.{Node, build_node}
use attacknet.Plan.Suite.Kinds.{
  attack_one, attack_all, attack_minority, attack_superminority, attack_majority,
  attack_supermajority,
}
use attacknet.Plan.Suite.Faults.{volume_path_for_io_fault}
use attacknet.Plan.Suite.Tags.{execution, consensus, validator, convert_to_node_id_tag}
use attacknet.Plan.Suite.Tags.Identity.{tag_injective}
use attacknet.Plan.Suite.Tags.Volumes.{volume_path-tag}
use attacknet.Plan.Suite.Targeting.{
  nodes_to_target, percent_of, share, choose_targets_using_attack_size,
}
use attacknet.Plan.Suite.Targeting.Scope.{InShare}
use attacknet.Plan.Suite.Targeting.Choice.{choose_share, choose_crash}
use attacknet.Tests.Nodes.{geth_lighthouse, geth_prysm, reth_teku, crowd}

table_of_the_source :
    (nodes_to_target attack_all 10 10 ≡ ok 10)
    × (nodes_to_target attack_one 10 10 ≡ ok 1)
    × (nodes_to_target attack_minority 10 10 ≡ ok 3)
    × (nodes_to_target attack_superminority 10 10 ≡ ok 4)
    × (nodes_to_target attack_majority 10 10 ≡ ok 6)
    × (nodes_to_target attack_supermajority 10 10 ≡ ok 7)
    × (nodes_to_target attack_all 10 5 ≡ ok 5)
    × (nodes_to_target attack_superminority 10 5 ≡ ok 4)
    × (nodes_to_target attack_minority 10 5 ≡ ok 3)
    × (nodes_to_target attack_supermajority 10 5
        ≡ err (cannot_meet "AttackSupermajorityMatching" 10))
    × (nodes_to_target attack_majority 4 4 ≡ err (cannot_meet "AttackMajorityMatching" 4))
unfolding nodes_to_target percent_of share Float.lt Float.le
table_of_the_source = (refl, refl, refl, refl, refl, refl, refl, refl, refl, refl, refl)

choose_share_example :
    (take 4 (crowd 5) ≡ take (length (take 4 (crowd 5))) (crowd 5))
    × (0 < length (take 4 (crowd 5)))
    × InShare attack_superminority 10 (length (crowd 5)) (length (take 4 (crowd 5)))
unfolding choose_targets_using_attack_size nodes_to_target percent_of share Float.lt Float.le
choose_share_example =
    choose_share attack_superminority 10 (crowd 5) (take 4 (crowd 5)) (omega arith) (omega arith)
      refl

choose_crash_example :
    (choose_targets_using_attack_size attack_one 7 [] ≡ crash index_out_of_range) ↔ (
      (attack_one ≡ attack_one)
      × (◌≡◌ {A = List Node} [] [])
      × (index_out_of_range ≡ index_out_of_range))
choose_crash_example = choose_crash attack_one 7 [] index_out_of_range (omega arith) (omega arith)

tag_text : convert_to_node_id_tag 12 geth_lighthouse validator ≡ "val-02-lighthouse-geth"
unfolding convert_to_node_id_tag build_node
tag_text = refl

tag_injective_example : (consensus ≡ consensus) × (geth_prysm.index ≡ geth_prysm.index)
tag_injective_example = tag_injective 12 geth_prysm geth_prysm consensus consensus tt tt refl

not_validator : (s : String) → str_eq s "validator" ≡ false → s ≢ "validator"
not_validator s h e = ground (arith, eq_iff s "validator")

volume_path-tag_example :
    (volume_path_for_io_fault (convert_to_node_id_tag 12 reth_teku execution)
      ≡ ok ("/data/" ++ ("reth" ++ ("/" ++ ("execution" ++ "-data")))))
    × (volume_path_for_io_fault (convert_to_node_id_tag 12 reth_teku consensus)
        ≡ ok ("/data/" ++ ("teku" ++ ("/" ++ ("consensus" ++ "-data")))))
    × (volume_path_for_io_fault (convert_to_node_id_tag 12 reth_teku validator)
        ≡ ok ("/data/" ++ ("teku" ++ ("/" ++ ("consensus" ++ "-data")))))
unfolding build_node
volume_path-tag_example =
    volume_path-tag 12 reth_teku (omega arith) (omega arith) (not_validator "reth" refl)
      (not_validator "teku" refl)
