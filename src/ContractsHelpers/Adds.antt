-- ===== src/ContractsHelpers/Adds.antt =====
-- What the deployments, the records and the transactions of helpers/contracts-helpers.ts add to the
-- history, under a test of the transactions.
use vinium_lending.Prelude.{ℕ, String, Bool, true, false, ◌≡◌, refl, List, if◌then◌else◌}
use vinium_lending.Effects.{
  Env, Arg, Call, Action, deployed, deployed_code, History, Result, ok, err, rejected,
}
use vinium_lending.Effects.Adds.{
  Adds, allows, adds_rules, Adds-bind, Adds-perform, Adds-read, Extends, same,
}
use vinium_lending.Signers.Adds.{Requests, get_first_signer-Adds}
use vinium_lending.Verification.Adds.{Verifies, verify_contract-Adds}
use vinium_lending.MiscUtils.{wait_for_tx}
use vinium_lending.ContractsHelpers.{
  Contract, register_contract_in_json_db, insert_contract_address_in_db,
  raw_insert_contract_address_in_db, deploy_linked, deploy_bytecode, send, send_and_wait,
  with_save_and_verify, deploy_contract,
}

pub allows-Requests : (q : Call → Bool) → Requests (allows q)
allows-Requests q = record { request = λ method args. refl }

pub allows-Verifies : (q : Call → Bool) → Verifies (allows q)
allows-Verifies q = record {
  requests = allows-Requests q;
  tenderly = λ id address. refl;
  etherscan = λ address args related. refl;
}

pub wait_for_tx-Adds : (env : Env) {p : Action → Bool} → Adds p (wait_for_tx env)
unfolding wait_for_tx
wait_for_tx-Adds env {p} = record { at = λ h. unchanged h (env.mines h) }
  where
    unchanged :
        (h : History) (b : Bool)
        → Extends p h
            (if◌then◌else◌ {A = Result (Unit {0}) × History} b (ok tt, h) (err rejected, h)).1
    unchanged h true = same
    unchanged h false = same

module _ (env : Env) (q : Call → Bool) where
  pub send-Adds : (c : Contract) (call : Call) → q call ≡ true → Adds (allows q) (send env c call)
  unfolding send
  send-Adds c call passes = search adds_rules

  pub send_and_wait-Adds :
      (c : Contract) (call : Call) → q call ≡ true → Adds (allows q) (send_and_wait env c call)
  unfolding send_and_wait
  send_and_wait-Adds c call passes = search (adds_rules, wait_for_tx-Adds)

  pub register_contract_in_json_db-Adds :
      (id : String) (c : Contract) → Adds (allows q) (register_contract_in_json_db env id c)
  unfolding register_contract_in_json_db
  register_contract_in_json_db-Adds id c = search adds_rules

  pub insert_contract_address_in_db-Adds :
      (id address : String) → Adds (allows q) (insert_contract_address_in_db env id address)
  unfolding insert_contract_address_in_db
  insert_contract_address_in_db-Adds id address = search adds_rules

  pub raw_insert_contract_address_in_db-Adds :
      (id address : String) → Adds (allows q) (raw_insert_contract_address_in_db env id address)
  unfolding raw_insert_contract_address_in_db
  raw_insert_contract_address_in_db-Adds id address = search adds_rules

  pub deploy_linked-Adds :
      (factory : String) (libraries : List (String × String)) (args : List Arg)
      → Adds (allows q) (deploy_linked env factory libraries args)
  unfolding deploy_linked
  deploy_linked-Adds factory libraries args =
      Adds-bind _ _ (get_first_signer-Adds env (allows-Requests q)) λ signer.
        Adds-bind _ _ (Adds-perform env (deployed factory libraries args signer) refl)
          λ _. Adds-read _

  pub deploy_bytecode-Adds :
      (factory : String) (bytecode : List ℕ)
      → Adds (allows q) (deploy_bytecode env factory bytecode)
  unfolding deploy_bytecode
  deploy_bytecode-Adds factory bytecode =
      Adds-bind _ _ (get_first_signer-Adds env (allows-Requests q)) λ signer.
        Adds-bind _ _ (Adds-perform env (deployed_code bytecode signer) refl)
          λ _. Adds-bind _ _ (wait_for_tx-Adds env) λ _. Adds-read _

  pub with_save_and_verify-Adds :
      (instance_ : Contract) (id : String) (args : List Arg) (verify : Bool)
      → Adds (allows q) (with_save_and_verify env instance_ id args verify)
  unfolding with_save_and_verify
  with_save_and_verify-Adds instance_ id args verify = search (
    adds_rules,
    wait_for_tx-Adds,
    register_contract_in_json_db-Adds,
    verify_contract-Adds env (allows-Verifies q),
  )

  pub deploy_contract-Adds :
      (name : String) (args : List Arg) → Adds (allows q) (deploy_contract env name args)
  unfolding deploy_contract
  deploy_contract-Adds name args =
      search (adds_rules, deploy_linked-Adds, wait_for_tx-Adds, register_contract_in_json_db-Adds)
