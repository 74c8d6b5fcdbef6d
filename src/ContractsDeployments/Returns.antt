-- ===== src/ContractsDeployments/Returns.antt =====
-- The deployment scripts and the getters in a world that answers, without verification.
use vinium_lending.Prelude.{String, ◌≡◌, ap, none, some, false, List, ◌==◌, ℕ, truthy}
use vinium_lending.Effects.{
  Env, Arg, Call, DbEntry, deployed, deployed_code, History, ok, or_throw, type_error, resume,
}
use vinium_lending.Effects.Returns.{
  IsAnswering, Returns, returns, returns_rules, Returns-ask, Returns-bind, Returns-read,
  Returns-perform, Returns-pure,
}
use vinium_lending.Signers.{get_first_signer}
use vinium_lending.MiscUtils.{wait_for_tx}
use vinium_lending.ContractsHelpers.{
  Contract, register_contract_in_json_db, insert_contract_address_in_db, deploy_linked,
  deploy_bytecode, send, send_and_wait, with_save_and_verify,
}
use vinium_lending.ContractsHelpers.Registry.{wait_for_tx_live}
use vinium_lending.ContractsGetters.{connect, connect_or_db, db_address}
use vinium_lending.ContractsDeployments.Save.{deploy_and_save}
use vinium_lending.ContractsDeployments.Protocol.{
  deploy_lending_pool_configurator, deploy_reserve_logic_library,
}
use vinium_lending.ContractsDeployments.Libraries.{
  read_artifact, deploy_generic_logic, deploy_validation_logic, deploy_vinium_libraries,
  deploy_lending_pool,
}

module _ (env : Env) (answering : IsAnswering env) (signer : String)
    (first : (h : History) → get_first_signer env h ≡ (ok signer, h)) where
  get_first_signer-Returns : Returns (get_first_signer env)
  get_first_signer-Returns = returns (λ h. (signer, h, first h))

  wait_for_tx-Returns : Returns (wait_for_tx env)
  wait_for_tx-Returns = returns (λ h. (tt, h, wait_for_tx_live env answering.live h))

  pub send-Returns : (c : Contract) (call : Call) → Returns (send env c call)
  unfolding send
  send-Returns c call = Returns-perform env answering.live _

  pub send_and_wait-Returns : (c : Contract) (call : Call) → Returns (send_and_wait env c call)
  unfolding send_and_wait
  send_and_wait-Returns c call = search (returns_rules, send-Returns, wait_for_tx-Returns)

  pub insert_contract_address_in_db-Returns :
      (id address : String) → Returns (insert_contract_address_in_db env id address)
  unfolding insert_contract_address_in_db
  insert_contract_address_in_db-Returns id address = Returns-perform env answering.live _

  register_contract_in_json_db-Returns :
      (id : String) (c : Contract) → Returns (register_contract_in_json_db env id c)
  unfolding register_contract_in_json_db
  register_contract_in_json_db-Returns id c = Returns-perform env answering.live _

  with_save_and_verify-Returns :
      (c : Contract) (id : String) (args : List Arg)
      → Returns (with_save_and_verify env c id args false)
  unfolding with_save_and_verify
  with_save_and_verify-Returns c id args =
      search (returns_rules, wait_for_tx-Returns, register_contract_in_json_db-Returns)

  deploy_linked-Returns :
      (factory : String) (libraries : List (String × String)) (args : List Arg)
      → Returns (deploy_linked env factory libraries args)
  unfolding deploy_linked
  deploy_linked-Returns factory libraries args = Returns-bind _ _ get_first_signer-Returns λ from.
      Returns-bind _ _ (Returns-perform env answering.live (deployed factory libraries args from))
        λ _. Returns-read _

  deploy_bytecode-Returns :
      (factory : String) (bytecode : List ℕ) → Returns (deploy_bytecode env factory bytecode)
  unfolding deploy_bytecode
  deploy_bytecode-Returns factory bytecode = Returns-bind _ _ get_first_signer-Returns λ from.
      Returns-bind _ _ (Returns-perform env answering.live (deployed_code bytecode from))
        λ _. Returns-bind _ _ wait_for_tx-Returns λ _. Returns-read _

  pub deploy_and_save-Returns :
      (factory id : String) (args : List Arg) → Returns (deploy_and_save env factory id args false)
  unfolding deploy_and_save
  deploy_and_save-Returns factory id args =
      search (returns_rules, deploy_linked-Returns, with_save_and_verify-Returns)

  read_artifact-Returns : (id : String) → Returns (read_artifact env id)
  unfolding read_artifact
  read_artifact-Returns id =
      Returns-ask env (λ h. env.read_artifact (env.network_name == "buidlerevm") id)
        λ h. answering.compiled _ id

  deploy_generic_logic-Returns :
      (reserve_logic : Contract) → Returns (deploy_generic_logic env reserve_logic false)
  unfolding deploy_generic_logic
  deploy_generic_logic-Returns reserve_logic =
      search (
        returns_rules, read_artifact-Returns, deploy_bytecode-Returns, with_save_and_verify-Returns,
      )

  deploy_validation_logic-Returns :
      (reserve_logic generic_logic : Contract)
      → Returns (deploy_validation_logic env reserve_logic generic_logic false)
  unfolding deploy_validation_logic
  deploy_validation_logic-Returns reserve_logic generic_logic =
      search (
        returns_rules, read_artifact-Returns, deploy_bytecode-Returns, with_save_and_verify-Returns,
      )

  deploy_vinium_libraries-Returns : Returns (deploy_vinium_libraries env false)
  unfolding deploy_vinium_libraries deploy_reserve_logic_library
  deploy_vinium_libraries-Returns =
      search
        (
          returns_rules, deploy_and_save-Returns, deploy_generic_logic-Returns,
          deploy_validation_logic-Returns,
        )
        depth 8

  pub deploy_lending_pool-Returns : Returns (deploy_lending_pool env false)
  unfolding deploy_lending_pool
  deploy_lending_pool-Returns =
      search
        (
          returns_rules, deploy_vinium_libraries-Returns, deploy_linked-Returns,
          insert_contract_address_in_db-Returns, with_save_and_verify-Returns,
        )
        depth 8

  pub deploy_lending_pool_configurator-Returns :
      Returns (deploy_lending_pool_configurator env false)
  unfolding deploy_lending_pool_configurator
  deploy_lending_pool_configurator-Returns = search (
    returns_rules, deploy_linked-Returns, insert_contract_address_in_db-Returns,
    with_save_and_verify-Returns,
  )

  connect-Returns : (factory address : String) → Returns (connect env factory address)
  unfolding connect
  connect-Returns factory address = Returns-bind _ _ get_first_signer-Returns λ from. Returns-pure _

  -- A getter returns if the database has a record under its id, and if it is given an address.
  pub db-Returns :
      (factory id : String)
      → ((h : History) → (e : DbEntry) × (env.db_get h id env.network_name ≡ some e))
      → Returns (connect_or_db env factory id none)
  unfolding connect_or_db db_address
  db-Returns factory id recorded =
      Returns-bind (db_address env id) _
        (returns (λ h.
          let (e, found) = recorded h in
          (e.address, h, ap (resume _) (ap (λ o. or_throw o type_error h) found))))
        λ target. connect-Returns factory target

  pub given-Returns :
      (factory id address : String)
      → truthy (some address) ≡ some address
      → Returns (connect_or_db env factory id (some address))
  unfolding connect_or_db
  given-Returns factory id address given = rw given (connect-Returns factory address)
