-- ===== src/Tests/Checks.antt =====
-- Checks after which one client has recovered, beside one that had recovered before.
use attacknet.Base.{none, some, [], ◌∷◌, true, false, ◌≡◌, refl, if◌then◌else◌}
use attacknet.Base.Dict.{lookup, has_key}
use attacknet.Base.Int.{pos}
use attacknet.Health.Checks.{
  BlockConsensusTestResult, BlockConsensusArtifact, convert_result_to_artifact,
}
use attacknet.Health.Checks.Recovered.{has_recovered, convert_result_to_artifact-recovered}
use attacknet.Base.{◌+◌, ok, List}
use attacknet.Health.Checks.{HealthCheckResult}
use attacknet.Health.Checks.Rounds.{Round, answers, check_rounds, run_checks}
use attacknet.Health.Checks.Ending.{Ends, run_checks-Ends}
use attacknet.Health.Checks.Kept.{finalized_cl, artifact_of, next_result, recovery_time_kept}

abbrev earlier_checks : BlockConsensusArtifact
earlier_checks = record {
  test_result = record {
    consensus_block = 10;
    consensus_hash = "0xaa";
    failing_clients_reported_block = ("el-01", 8) ∷ [];
    failing_clients_reported_hash = ("el-02", "0xbb") ∷ [];
  };
  did_unfaulted_nodes_fail = true;
  did_unfaulted_nodes_need_to_recover = false;
  node_recovery_time_seconds = ("el-03", pos 5) ∷ [];
}

abbrev later_result : BlockConsensusTestResult
later_result = record {
  consensus_block = 12;
  consensus_hash = "0xcc";
  failing_clients_reported_block = [];
  failing_clients_reported_hash = ("el-02", "0xdd") ∷ [];
}

recovered_run :
    let a = convert_result_to_artifact [] (pos 20) (some earlier_checks) later_result in
    (lookup "el-01" a.node_recovery_time_seconds ≡ some (pos 20))
    × (lookup "el-02" a.node_recovery_time_seconds ≡ none)
    × (lookup "el-03" a.node_recovery_time_seconds ≡ some (pos 5))
    × (a.did_unfaulted_nodes_fail ≡ true)
unfolding convert_result_to_artifact lookup
recovered_run = (refl, refl, refl, refl)

convert_result_to_artifact-recovered_example :
    lookup "el-01"
      (convert_result_to_artifact []
        (pos 20)
        (some earlier_checks)
        later_result).node_recovery_time_seconds
    ≡ (if has_key "el-01" earlier_checks.node_recovery_time_seconds
        then lookup "el-01" earlier_checks.node_recovery_time_seconds
        else (if has_recovered "el-01" earlier_checks.test_result later_result
            then some (pos 20)
            else none))
convert_result_to_artifact-recovered_example =
    convert_result_to_artifact-recovered [] (pos 20) earlier_checks later_result "el-01"

abbrev empty_result : BlockConsensusTestResult
empty_result = record {
  consensus_block = 12;
  consensus_hash = "0xcc";
  failing_clients_reported_block = [];
  failing_clients_reported_hash = [];
}

-- In the first turn a client fails, in the second none does.
abbrev two_rounds : List Round
two_rounds =
    record {
      answer =
          answers (record { result = later_result; seconds = pos 1 })
            (record { result = empty_result; seconds = pos 1 })
            (record { result = empty_result; seconds = pos 2 })
            (record { result = empty_result; seconds = pos 2 });
      now = 102;
    }
    ∷ record {
      answer =
          answers (record { result = empty_result; seconds = pos 4 })
            (record { result = empty_result; seconds = pos 4 })
            (record { result = empty_result; seconds = pos 4 })
            (record { result = empty_result; seconds = pos 5 });
      now = 105;
    }
    ∷ []

abbrev earlier_result : HealthCheckResult
earlier_result = record {
  latest_el_block_result = earlier_checks;
  finalized_el_block_result = earlier_checks;
  latest_cl_block_result = earlier_checks;
  finalized_cl_block_result = earlier_checks;
}

abbrev final_result : HealthCheckResult
final_result =
    next_result []
      (next_result [] earlier_result (record { result = later_result; seconds = pos 1 })
        (record { result = empty_result; seconds = pos 1 })
        (record { result = empty_result; seconds = pos 2 })
        (record { result = empty_result; seconds = pos 2 }))
      (record { result = empty_result; seconds = pos 4 })
      (record { result = empty_result; seconds = pos 4 })
      (record { result = empty_result; seconds = pos 4 })
      (record { result = empty_result; seconds = pos 5 })

two_turns : check_rounds [] 160 (some earlier_result) two_rounds ≡ ok final_result
unfolding check_rounds
two_turns = refl

recovery_time_kept_example :
    lookup "el-03" (artifact_of finalized_cl final_result).node_recovery_time_seconds ≡ some (pos 5)
unfolding lookup artifact_of
recovery_time_kept_example =
    recovery_time_kept finalized_cl [] 160 earlier_result final_result two_rounds "el-03" (pos 5)
      two_turns refl

run_checks-Ends_example : Ends [] (100 + 4) none two_rounds (run_checks [] 100 4 two_rounds)
run_checks-Ends_example = run_checks-Ends [] 100 4 two_rounds refl
