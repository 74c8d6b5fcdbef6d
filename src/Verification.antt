-- ===== src/Verification.antt =====
-- helpers/etherscan-verification.ts, `verifyAtTenderly` of helpers/tenderly-utils.ts and
-- `verifyContract` of helpers/contracts-helpers.ts. Delays and console output are left out.
pub mod Retry
pub mod Adds
use vinium_lending.Prelude.{
  ℕ, zero, suc, String, Bool, true, false, not, Option, none, some, List, [], ◌∷◌, if◌then◌else◌,
  any, nat_beq, includes, contains_text, truthy,
}
use vinium_lending.Effects.{
  Env, Arg, M, Result, ok, err, pure, throw, when, perform, verified_tenderly, verified_etherscan,
  missing_etherscan_key, network_not_supported, exited, ◌>>=◌, ◌>>◌,
}
use vinium_lending.Signers.{using_tenderly}

abbrev pub fatal_errors : List String
fatal_errors =
    "The address provided as argument contains a contract, but its bytecode"
    ∷ "Daily limit of 100 source code submissions reached"
    ∷ "has no bytecode. Is the contract deployed to this network" ∷ "The constructor for" ∷ []

abbrev pub ok_errors : List String
ok_errors = "Contract source code already verified" ∷ "Already Verified" ∷ []

abbrev pub unable_verify_error : String
unable_verify_error = "Fail - Unable to verify"

abbrev pub supported_etherscan_networks : List String
supported_etherscan_networks =
    "main" ∷ "ropsten" ∷ "kovan" ∷ "matic" ∷ "mumbai" ∷ "goerli" ∷ "avalanche" ∷ "fuji" ∷ []

module _ (env : Env) where
  -- `DRE.run('verify', params)`: the attempt, and the message of the error that it throws.
  run_verify : String → List Arg → Bool → M (Option String)
  run_verify address args related h =
      (ok (env.verify_error h address args related), verified_etherscan address args related ∷ h)

  -- The errors after which `runTaskWithRetry` gives up.
  abbrev pub is_final : String → Bool
  is_final message =
      if any (contains_text message) ok_errors
      then true
      else any (contains_text message) fatal_errors

  -- `runTaskWithRetry` with `times` attempts left. It returns whether `cleanup` was called.
  unfoldable pub run_task_with_retry : ℕ → String → List Arg → Bool → M Bool
  unfolding run_verify
  run_task_with_retry zero address args related = pure true
  run_task_with_retry (suc counter) address args related = do
    let sources = if nat_beq counter 0 then false else related
    let retry = λ (message : String).
        run_task_with_retry counter address args
          (if contains_text message unable_verify_error then false else sources)
    error ← run_verify address args sources
    elim error [
      | none ↦ pure true
      | some message ↦ elim (is_final message) [ true ↦ pure false | false ↦ retry message ]
    ]

  abbrev pub retry_times : ℕ
  retry_times = 4

  -- The parameters' temporary file is left out; the `try` swallows what the task throws.
  unfoldable pub verify_etherscan_contract : String → List Arg → M (Unit {0})
  unfolding run_task_with_retry
  verify_etherscan_contract address args = elim (truthy (env.getenv "ETHERSCAN_KEY")) [
    | none ↦ throw missing_etherscan_key
    | some _ ↦
        if not (includes supported_etherscan_networks env.network_name)
        then throw (network_not_supported env.network_name)
        else run_task_with_retry retry_times address args true >> pure tt
  ]

  unfoldable pub check_verification : M (Unit {0})
  check_verification = elim (truthy (env.getenv "ETHERSCAN_KEY")) [
    | none ↦ throw (exited 3)
    | some _ ↦
        if not (includes supported_etherscan_networks env.network_name)
        then throw (exited 5)
        else pure tt
  ]

  unfoldable pub verify_at_tenderly : (id address : String) → M (Unit {0})
  verify_at_tenderly id address = perform env (verified_tenderly id address)

  unfoldable pub verify_contract : (id address : String) → List Arg → M (Unit {0})
  unfolding using_tenderly verify_at_tenderly verify_etherscan_contract
  verify_contract id address args = do
    when (using_tenderly env) (verify_at_tenderly id address)
    verify_etherscan_contract address args
