-- ===== src/Runtime/Devnet.antt =====
-- pkg/runtime/runtime.go: the enclave of a suite is made, or one that is there is taken.
use attacknet.Base.{
  ℕ, Bool, Option, List, String, if◌then◌else◌, Outcome, ok, err, crash, nil_pointer, require,
  ◌>>=◌, ◌>>◌,
}
use attacknet.Base.Text.{str_eq}
use attacknet.Types.{ConfigParsed}
use attacknet.Kurtosis.{
  EnclaveContextWrapper, EnclaveAnswer, Run, create_or_import_context, start_network,
}

-- Whether the engine can be reached, and what it answers; `now` is the time in seconds.
pub record EngineAnswer : Type 0 where
  pub is_reached : Bool
  pub now : ℕ
  pub get : List ℕ → EnclaveAnswer
  pub create : List ℕ → Option String
  pub run : Option Run

module _ (engine : EngineAnswer) (cfg : ConfigParsed) where
  abbrev pub context : Outcome (EnclaveContextWrapper × Bool)
  context = create_or_import_context engine.now engine.get engine.create cfg.attacknet_config

  -- The namespace of the context is read before the error is looked at.
  abbrev pub read_namespace :
      Outcome (EnclaveContextWrapper × Bool) → Outcome (EnclaveContextWrapper × Bool)
  read_namespace (ok made) = ok made
  read_namespace (err e) = crash nil_pointer
  read_namespace (crash c) = crash c

  unfoldable pub setup_devnet : Outcome EnclaveContextWrapper
  unfolding create_or_import_context start_network
  setup_devnet = do
    require engine.is_reached "could not connect to the Kurtosis engine"
    (enclave, is_created) ← read_namespace context
    start_network engine.run
    ok enclave

  unfoldable pub load_enclave_from_existing_devnet : Outcome EnclaveContextWrapper
  unfolding create_or_import_context start_network
  load_enclave_from_existing_devnet = do
    require engine.is_reached "could not connect to the Kurtosis engine"
    (enclave, is_created) ← context
    (if is_created then start_network engine.run else ok tt)
    ok enclave

  unfoldable pub setup_enclave : Outcome EnclaveContextWrapper
  unfolding setup_devnet load_enclave_from_existing_devnet
  setup_enclave =
      if str_eq cfg.attacknet_config.existing_devnet_namespace ""
      then setup_devnet
      else load_enclave_from_existing_devnet
