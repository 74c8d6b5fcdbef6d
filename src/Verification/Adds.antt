-- ===== src/Verification/Adds.antt =====
-- What a verification adds to the history.
use vinium_lending.Prelude.{
  ℕ, zero, suc, String, Bool, true, false, not, ◌≡◌, List, truthy, includes, contains_text, nat_beq,
  if◌then◌else◌,
}
use vinium_lending.Effects.{Env, Arg, Action, verified_tenderly, verified_etherscan}
use vinium_lending.Effects.Adds.{
  Adds, same, more, adds_rules, Adds-bind, Adds-if, Adds-elim_bool, Adds-elim_option, Adds-pure,
  Adds-throw,
}
use vinium_lending.Signers.Adds.{Requests}
use vinium_lending.Verification.{
  supported_etherscan_networks, run_verify, is_final, run_task_with_retry, unable_verify_error,
  verify_etherscan_contract, check_verification, verify_at_tenderly, verify_contract,
}

-- The test lets through requests and verifications.
pub record Verifies (p : Action → Bool) : Type 0 where
  pub requests : Requests p
  pub tenderly : (id address : String) → p (verified_tenderly id address) ≡ true
  pub etherscan :
      (address : String) (args : List Arg) (related : Bool)
      → p (verified_etherscan address args related) ≡ true

module _ (env : Env) {p : Action → Bool} (verifies : Verifies p) where
  run_verify-Adds :
      (address : String) (args : List Arg) (related : Bool)
      → Adds p (run_verify env address args related)
  unfolding run_verify
  run_verify-Adds address args related = record {
    at = λ h. more _ (verifies.etherscan address args related) same;
  }

  run_task_with_retry-Adds :
      (times : ℕ) (address : String) (args : List Arg) (related : Bool)
      → Adds p (run_task_with_retry env times address args related)
  unfolding run_task_with_retry
  run_task_with_retry-Adds zero address args related = Adds-pure true
  run_task_with_retry-Adds (suc counter) address args related =
      Adds-bind _ _ (run_verify-Adds address args (if nat_beq counter 0 then false else related))
        λ error. Adds-elim_option error _ _ (Adds-pure true) λ message.
          Adds-elim_bool (is_final env message) _ _ (Adds-pure false) (
            run_task_with_retry-Adds counter address args (
              if contains_text message unable_verify_error
              then false
              else if nat_beq counter 0
              then false
              else related))

  pub verify_etherscan_contract-Adds :
      (address : String) (args : List Arg) → Adds p (verify_etherscan_contract env address args)
  unfolding verify_etherscan_contract
  verify_etherscan_contract-Adds address args =
      Adds-elim_option (truthy (env.getenv "ETHERSCAN_KEY")) _ _ (Adds-throw _) λ key.
        Adds-if (not (includes supported_etherscan_networks env.network_name)) _ _ (Adds-throw _)
          (search (adds_rules, run_task_with_retry-Adds))

  pub check_verification-Adds : Adds p (check_verification env)
  unfolding check_verification
  check_verification-Adds =
      Adds-elim_option (truthy (env.getenv "ETHERSCAN_KEY")) _ _ (Adds-throw _) λ key.
        Adds-if (not (includes supported_etherscan_networks env.network_name)) _ _ (Adds-throw _)
          (Adds-pure tt)

  verify_at_tenderly-Adds : (id address : String) → Adds p (verify_at_tenderly env id address)
  unfolding verify_at_tenderly
  verify_at_tenderly-Adds id address = search (adds_rules, verifies.tenderly)

  pub verify_contract-Adds :
      (id address : String) (args : List Arg) → Adds p (verify_contract env id address args)
  unfolding verify_contract
  verify_contract-Adds id address args =
      search (adds_rules, verify_at_tenderly-Adds, verify_etherscan_contract-Adds)
