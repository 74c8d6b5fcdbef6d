-- ===== src/ContractsDeployments/Adds.antt =====
-- What the deployment scripts add to the history, under a test of the transactions.
use vinium_lending.Prelude.{String, Bool, true, ◌≡◌, List, ◌==◌}
use vinium_lending.Effects.{Env, Arg, Call, initialize, authorize_lending_pool, rejected}
use vinium_lending.Effects.Adds.{Adds, allows, adds_rules, Adds-or_throw}
use vinium_lending.Signers.Adds.{get_first_signer-Adds}
use vinium_lending.Verification.Adds.{verify_contract-Adds}
use vinium_lending.ContractsHelpers.{Contract}
use vinium_lending.ContractsHelpers.Adds.{
  allows-Requests, allows-Verifies, send-Adds, deploy_linked-Adds, deploy_bytecode-Adds,
  insert_contract_address_in_db-Adds, with_save_and_verify-Adds, deploy_contract-Adds,
}
use vinium_lending.ContractsDeployments.{
  deploy_and_save, read_artifact, deploy_reserve_logic_library, deploy_generic_logic,
  deploy_validation_logic, deploy_vinium_libraries, deploy_lending_pool,
  deploy_lending_pool_configurator, deploy_lending_pool_collateral_manager, deploy_rate_strategy,
  deploy_default_reserve_interest_rate_strategy, authorize_weth_gateway, deploy_stable_vd_token,
  deploy_variable_vd_token, deploy_ui_incentive_data_provider_v2_v3, deploy_ui_pool_data_provider,
}

module _ (env : Env) (q : Call → Bool) where
  pub deploy_and_save-Adds :
      (factory id : String) (args : List Arg) (verify : Bool)
      → Adds (allows q) (deploy_and_save env factory id args verify)
  unfolding deploy_and_save
  deploy_and_save-Adds factory id args verify =
      search (adds_rules, deploy_linked-Adds env q, with_save_and_verify-Adds env q)

  read_artifact-Adds : (id : String) → Adds (allows q) (read_artifact env id)
  unfolding read_artifact
  read_artifact-Adds id =
      Adds-or_throw (env.read_artifact (env.network_name == "buidlerevm") id) rejected

  deploy_generic_logic-Adds :
      (reserve_logic : Contract) (verify : Bool)
      → Adds (allows q) (deploy_generic_logic env reserve_logic verify)
  unfolding deploy_generic_logic
  deploy_generic_logic-Adds reserve_logic verify =
      search (
        adds_rules,
        read_artifact-Adds,
        deploy_bytecode-Adds env q,
        with_save_and_verify-Adds env q,
      )

  deploy_validation_logic-Adds :
      (reserve_logic generic_logic : Contract) (verify : Bool)
      → Adds (allows q) (deploy_validation_logic env reserve_logic generic_logic verify)
  unfolding deploy_validation_logic
  deploy_validation_logic-Adds reserve_logic generic_logic verify =
      search (
        adds_rules,
        read_artifact-Adds,
        deploy_bytecode-Adds env q,
        with_save_and_verify-Adds env q,
      )

  deploy_vinium_libraries-Adds :
      (verify : Bool) → Adds (allows q) (deploy_vinium_libraries env verify)
  unfolding deploy_vinium_libraries deploy_reserve_logic_library
  deploy_vinium_libraries-Adds verify =
      search
        (adds_rules, deploy_and_save-Adds, deploy_generic_logic-Adds, deploy_validation_logic-Adds)
        depth 8

  pub deploy_lending_pool-Adds : (verify : Bool) → Adds (allows q) (deploy_lending_pool env verify)
  unfolding deploy_lending_pool
  deploy_lending_pool-Adds verify =
      search
        (
          adds_rules,
          deploy_vinium_libraries-Adds,
          deploy_linked-Adds env q,
          insert_contract_address_in_db-Adds env q,
          with_save_and_verify-Adds env q,
        )
        depth 8

  pub deploy_lending_pool_configurator-Adds :
      (verify : Bool) → Adds (allows q) (deploy_lending_pool_configurator env verify)
  unfolding deploy_lending_pool_configurator
  deploy_lending_pool_configurator-Adds verify = search (
    adds_rules,
    deploy_linked-Adds env q,
    insert_contract_address_in_db-Adds env q,
    with_save_and_verify-Adds env q,
  )

  pub deploy_lending_pool_collateral_manager-Adds :
      (verify : Bool) → Adds (allows q) (deploy_lending_pool_collateral_manager env verify)
  unfolding deploy_lending_pool_collateral_manager
  deploy_lending_pool_collateral_manager-Adds verify = search (
    adds_rules,
    deploy_linked-Adds env q,
    insert_contract_address_in_db-Adds env q,
    with_save_and_verify-Adds env q,
  )

  pub deploy_rate_strategy-Adds :
      (name a1 a2 a3 a4 a5 a6 a7 : String) (verify : Bool)
      → Adds (allows q) (deploy_rate_strategy env name a1 a2 a3 a4 a5 a6 a7 verify)
  unfolding deploy_rate_strategy deploy_default_reserve_interest_rate_strategy
  deploy_rate_strategy-Adds name a1 a2 a3 a4 a5 a6 a7 verify =
      search (adds_rules, deploy_and_save-Adds)

  pub authorize_weth_gateway-Adds :
      (gateway pool : String)
      → q (authorize_lending_pool pool) ≡ true
      → Adds (allows q) (authorize_weth_gateway env gateway pool)
  unfolding authorize_weth_gateway
  authorize_weth_gateway-Adds gateway pool passes =
      search (adds_rules, get_first_signer-Adds env (allows-Requests q), send-Adds env q)

  pub deploy_ui_incentive_data_provider_v2_v3-Adds :
      (verify : Bool) → Adds (allows q) (deploy_ui_incentive_data_provider_v2_v3 env verify)
  unfolding deploy_ui_incentive_data_provider_v2_v3
  deploy_ui_incentive_data_provider_v2_v3-Adds verify =
      search (adds_rules, deploy_contract-Adds env q, verify_contract-Adds env (allows-Verifies q))

  pub deploy_ui_pool_data_provider-Adds :
      (incentives_controller vinium_oracle : String) (verify : Bool)
      → Adds
          (allows q)
          (deploy_ui_pool_data_provider env incentives_controller vinium_oracle verify)
  unfolding deploy_ui_pool_data_provider
  deploy_ui_pool_data_provider-Adds incentives_controller vinium_oracle verify =
      search (adds_rules, deploy_contract-Adds env q, verify_contract-Adds env (allows-Verifies q))

  module _ (initializes : (args : List String) → q (initialize args) ≡ true) where
    pub deploy_stable_vd_token-Adds :
        (a0 a1 a2 a3 a4 : String) (verify : Bool)
        → Adds (allows q) (deploy_stable_vd_token env a0 a1 a2 a3 a4 verify)
    unfolding deploy_stable_vd_token
    deploy_stable_vd_token-Adds a0 a1 a2 a3 a4 verify =
        search (adds_rules, deploy_and_save-Adds, send-Adds env q, initializes)

    pub deploy_variable_vd_token-Adds :
        (a0 a1 a2 a3 a4 : String) (verify : Bool)
        → Adds (allows q) (deploy_variable_vd_token env a0 a1 a2 a3 a4 verify)
    unfolding deploy_variable_vd_token
    deploy_variable_vd_token-Adds a0 a1 a2 a3 a4 verify =
        search (adds_rules, deploy_and_save-Adds, send-Adds env q, initializes)
