-- ===== src/Kurtosis.antt =====
-- pkg/kurtosis/kurtosis.go. What the engine answers is an argument; the two functions that only pass a
-- call on to the engine are left out.
pub mod Names
pub mod Network
use attacknet.Base.{
  ℕ, zero, suc, Bool, true, false, Option, none, some, List, [], ◌∷◌, if◌then◌else◌, String,
  Outcome, ok, err, crash, failure, or_crash, or_fail, require, index_out_of_range, exit, blocked,
  out_of_fuel, length, ◌>>=◌, ◌>>◌,
}
use attacknet.Base.Text.{◌++◌, str_eq, contains}
use attacknet.Golang.Decimal.{itoa}
use attacknet.Golang.Utf8.{utf8, slice_from}
use attacknet.Types.{AttacknetConfig}

-- The enclave is known to the engine by its name.
pub record EnclaveContextWrapper : Type 0 where
  pub namespace : String
  pub enclave_name : String
  pub reuse_devnet_between_runs : Bool

-- `now` is the time in seconds. The name is a list of bytes, since the cut may be inside a character.
unfoldable pub get_enclave_name : ℕ → String → Outcome (List ℕ)
unfolding utf8 slice_from itoa
get_enclave_name now namespace =
    if str_eq namespace ""
    then ok (utf8 ("attacknet-" ++ itoa now))
    else or_crash (slice_from 3 (utf8 namespace)) index_out_of_range

-- The engine's answer to a request for an enclave: its name, or the text of the error's root cause.
pub data EnclaveAnswer : Type 0 where
  existing : String → EnclaveAnswer
  no_context : String → EnclaveAnswer

unfoldable pub is_error_no_enclave_found : String → Bool
unfolding contains
is_error_no_enclave_found root_cause = contains root_cause "Couldn't find an enclave for identifier"

abbrev wrapper : String → Bool → EnclaveContextWrapper
wrapper name reuse = record {
  namespace = "kt-" ++ name;
  enclave_name = name;
  reuse_devnet_between_runs = reuse;
}

-- What is made of the engine's answer for the name; the result says whether the enclave was created.
unfoldable pub context_from :
    (List ℕ → Option String)
    → AttacknetConfig
    → List ℕ
    → EnclaveAnswer
    → Outcome (EnclaveContextWrapper × Bool)
unfolding is_error_no_enclave_found
context_from create cfg enclave_name (existing found) =
    if cfg.reuse_devnet_between_runs then ok (wrapper found true, false) else crash exit
context_from create cfg enclave_name (no_context root_cause) =
    if is_error_no_enclave_found root_cause
    then (do
      created ← or_fail (create enclave_name) "CreateProductionEnclave"
      ok (wrapper created cfg.reuse_devnet_between_runs, true))
    else err (failure "GetEnclaveContext")

-- `get` is the engine's answer for an enclave of a name, and `create` the name of an enclave that it
-- creates.
unfoldable pub create_or_import_context :
    ℕ
    → (List ℕ → EnclaveAnswer)
    → (List ℕ → Option String)
    → AttacknetConfig
    → Outcome (EnclaveContextWrapper × Bool)
unfolding get_enclave_name context_from
create_or_import_context now get create cfg = do
  enclave_name ← get_enclave_name now cfg.existing_devnet_namespace
  context_from create cfg enclave_name (get enclave_name)

-- Destroy gives the name of the enclave that is destroyed, if one is; an error of the engine ends the
-- process.
unfoldable pub destroy : Bool → EnclaveContextWrapper → Outcome (Option String)
destroy is_destroyed e =
    if e.reuse_devnet_between_runs
    then ok none
    else if is_destroyed
    then ok (some e.enclave_name)
    else crash exit

-- A line of the engine's response: an error, the end of the run with its success, or another line.
pub data Line : Type 0 where
  error : Line
  finished : Bool → Line
  other : Line

-- The channel of the response: the lines that the engine sends, and whether it closes the channel then.
pub record Run : Type 0 where
  pub lines : List Line
  pub is_closed : Bool

-- The loop of StartNetwork. A receive gives the next line, after the last one nil if the channel is
-- closed, and waits for ever if it is not. None of the getters finds anything in nil.
unfoldable pub follow_run : ℕ → Run → Outcome (Unit {0})
follow_run zero run = crash out_of_fuel
follow_run (suc fuel) run = elim run.lines [
  | [] ↦ elim run.is_closed [ true ↦ follow_run fuel run | false ↦ crash blocked ]
  | line ∷ rest ↦ elim line [
    | error ↦ err (failure "kurtosis deployment failed during execution")
    | finished is_successful ↦ require is_successful "kurtosis deployment failed"
    | other ↦ follow_run fuel (record run { lines = rest })
  ]
]

-- `response` is that to RunStarlarkRemotePackage. The fuel lets every line be read.
unfoldable pub start_network : Option Run → Outcome (Unit {0})
unfolding follow_run
start_network response = do
  run ← or_fail response "error running Starklark script"
  follow_run (suc (length run.lines)) run
