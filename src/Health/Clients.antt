-- ===== src/Health/Clients.antt =====
-- GetLatestBlockBy of pkg/health/ethereum/execution_rpc.go and beacon_rpc.go, and the two functions of
-- consensus.go that ask every client for its block. A client's answer to the call is an argument.
use attacknet.Base.{
  ℕ, ◌/◌, ◌%◌, ◌&&◌, Option, none, some, List, [], ◌∷◌, any, ltb, ◌==◌, if◌then◌else◌, String,
  Outcome, ok, err, crash, failure, nil_pointer, ◌>>=◌,
}
use attacknet.Base.Text.{◌++◌, str_eq}
use attacknet.Golang.Decimal.{digit}
use attacknet.Health.Votes.{ClientForkChoice}

-- The error of the call, or the header, which is nil when the client answers null: its number and
-- its hash.
pub data ExecAnswer : Type 0 where
  fails : String → ExecAnswer
  header : Option (ℕ × String) → ExecAnswer

abbrev not_finalizing_errors : List String
not_finalizing_errors =
    "safe block not found" ∷ "finalized block not found" ∷ "Unknown block" ∷ "Unknown block error"
    ∷ "unknown block" ∷ []

abbrev pub choice_of : String → ℕ → String → ClientForkChoice
choice_of pod number hash = record { pod_name = pod; block_number = number; block_hash = hash }

unfoldable pub exec_latest_block : String → ExecAnswer → Outcome ClientForkChoice
exec_latest_block pod (fails message) =
    if any (λ m. str_eq message m) not_finalizing_errors
    then ok (choice_of pod 0 "None")
    else err (failure "error while calling RPC for client")
exec_latest_block pod (header none) = crash nil_pointer
exec_latest_block pod (header (some (number, hash))) =
    ok (choice_of pod number (if number == 0 then "None" else hash))

-- An api.Error with its status, another error, or the slot and the root of the body of the header.
pub data BeaconAnswer : Type 0 where
  api_error : ℕ → BeaconAnswer
  other_error : BeaconAnswer
  header : ℕ → List ℕ → BeaconAnswer

-- A digit of hex.EncodeToString.
hex_digit : ℕ → String
unfolding digit
hex_digit d =
    if ltb d 10
    then String.◌∷◌ (digit d) ""
    else if d == 10
    then "a"
    else if d == 11
    then "b"
    else if d == 12
    then "c"
    else if d == 13
    then "d"
    else if d == 14
    then "e"
    else "f"

-- hex.EncodeToString
unfoldable pub encode_hex : List ℕ → String
unfolding hex_digit
encode_hex [] = ""
encode_hex (byte ∷ bytes) = hex_digit (byte / 16) ++ (hex_digit (byte % 16) ++ encode_hex bytes)

-- An error is a vote for block zero, with a hash that tells a missing finalized block from the rest.
unfoldable pub beacon_latest_block : String → String → BeaconAnswer → Outcome ClientForkChoice
unfolding encode_hex
beacon_latest_block block_type pod (api_error status) =
    ok (choice_of pod 0 (if status == 404 && str_eq block_type "finalized" then "None" else "N/A"))
beacon_latest_block block_type pod other_error = ok (choice_of pod 0 "N/A")
beacon_latest_block block_type pod (header slot body_root) = ok (
    choice_of pod slot
      (if slot == 0 && str_eq block_type "finalized" then "None" else encode_hex body_root))

-- The loop over the clients, each with the name of its pod; it ends at the first error.
unfoldable pub exec_network_consensus : List (String × ExecAnswer) → Outcome (List ClientForkChoice)
unfolding exec_latest_block
exec_network_consensus [] = ok []
exec_network_consensus ((pod, answer) ∷ rest) = do
  choice ← exec_latest_block pod answer
  choices ← exec_network_consensus rest
  ok (choice ∷ choices)

unfoldable pub beacon_network_consensus :
    String → List (String × BeaconAnswer) → Outcome (List ClientForkChoice)
unfolding beacon_latest_block
beacon_network_consensus block_type [] = ok []
beacon_network_consensus block_type ((pod, answer) ∷ rest) = do
  choice ← beacon_latest_block block_type pod answer
  choices ← beacon_network_consensus block_type rest
  ok (choice ∷ choices)
