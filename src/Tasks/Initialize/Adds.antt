-- ===== src/Tasks/Initialize/Adds.antt =====
-- What the tasks on data providers, gateways and reserves add to the history, under a test that lets
-- their transactions through.
use vinium_lending.Prelude.{String, Bool, true, ◌≡◌, none}
use vinium_lending.Effects.{
  Env, Call, pure, ◌>>=◌, ◌>>◌, set_lending_pool_collateral_manager, set_address,
  authorize_lending_pool,
}
use vinium_lending.Effects.Adds.{Adds, allows, adds_rules, Adds-bind, Adds-if, Adds-throw}
use vinium_lending.ContractsHelpers.Adds.{allows-Requests, send_and_wait-Adds}
use vinium_lending.ContractsGetters.{get_lending_pool_addresses_provider}
use vinium_lending.ContractsGetters.Adds.{getter_rules}
use vinium_lending.ContractsDeployments.{
  deploy_vinium_protocol_data_provider, deploy_wallet_balancer_provider, deploy_weth_gateway,
}
use vinium_lending.ContractsDeployments.Adds.{
  deploy_and_save-Adds, deploy_lending_pool_collateral_manager-Adds, authorize_weth_gateway-Adds,
}
use vinium_lending.Configuration.{ConfigNames}
use vinium_lending.Configuration.Adds.{
  deploy_weth_mocked-Adds, load_pool_config-Adds, get_wrapped_native_token_address-Adds,
}
use vinium_lending.InitHelpers.Adds.{
  ReserveCalls, init_reserves_with-Adds, configure_reserves_by_helper-Adds,
}
use vinium_lending.Tasks.Steps.{is_chain}
use vinium_lending.Tasks.Steps.Adds.{reuse_or_deploy-Adds, exit_on_error-Adds}
use vinium_lending.Tasks.Initialize.{
  deploy_data_provider, full_deploy_weth_gateway, collateral_manager, gateway_in_db,
  initialize_reserves, initialize_steps, initialize_lending_pool, add_new_tokens,
}

module _ (env : Env) (q : Call → Bool) where
  pub deploy_data_provider-Adds :
      (verify : Bool) → Adds (allows q) (deploy_data_provider env verify)
  unfolding deploy_data_provider deploy_vinium_protocol_data_provider
  deploy_data_provider-Adds verify =
      exit_on_error-Adds
        (get_lending_pool_addresses_provider env none >>= λ provider.
          deploy_vinium_protocol_data_provider env provider.address verify >> pure tt)
        (search (adds_rules, getter_rules, allows-Requests, deploy_and_save-Adds env q))

  pub full_deploy_weth_gateway-Adds :
      (pool : ConfigNames) (verify : Bool)
      → Adds (allows q) (full_deploy_weth_gateway env pool verify)
  unfolding full_deploy_weth_gateway deploy_weth_gateway
  full_deploy_weth_gateway-Adds pool verify =
      Adds-bind _ _ (load_pool_config-Adds env pool) λ config.
        Adds-bind _ _
          (get_wrapped_native_token_address-Adds env (deploy_weth_mocked-Adds env q) config)
          λ weth.
            Adds-if (is_chain env.chain_id) _ _ (search (adds_rules, deploy_and_save-Adds env q))
              (Adds-throw _)

-- The test lets through the transactions of the initialisation.
pub record InitializeCalls (q : Call → Bool) : Type 0 where
  pub reserves : ReserveCalls q
  pub sets_manager : (address : String) → q (set_lending_pool_collateral_manager address) ≡ true
  pub sets_address : (id address : String) → q (set_address id address) ≡ true
  pub authorizes : (pool : String) → q (authorize_lending_pool pool) ≡ true

module _ (env : Env) {q : Call → Bool} (calls : InitializeCalls q) where
  collateral_manager-Adds : (verify : Bool) → Adds (allows q) (collateral_manager env verify)
  unfolding collateral_manager
  collateral_manager-Adds verify =
      search (adds_rules, deploy_lending_pool_collateral_manager-Adds env q)

  gateway_in_db-Adds : Adds (allows q) (gateway_in_db env)
  unfolding gateway_in_db
  gateway_in_db-Adds = search (adds_rules, getter_rules, allows-Requests)

  initialize_reserves-Adds :
      (pool : ConfigNames) (verify : Bool) → Adds (allows q) (initialize_reserves env pool verify)
  unfolding initialize_reserves
  initialize_reserves-Adds pool verify =
      search
        (
          adds_rules,
          getter_rules,
          allows-Requests,
          load_pool_config-Adds env,
          init_reserves_with-Adds env calls.reserves,
          configure_reserves_by_helper-Adds env calls.reserves,
        )
        depth 20 fits 3000

  initialize_steps-Adds :
      (pool : ConfigNames) (verify : Bool) → Adds (allows q) (initialize_steps env pool verify)
  unfolding initialize_steps deploy_wallet_balancer_provider
  initialize_steps-Adds pool verify =
      search
        (
          adds_rules,
          getter_rules,
          allows-Requests,
          initialize_reserves-Adds,
          reuse_or_deploy-Adds,
          collateral_manager-Adds,
          gateway_in_db-Adds,
          send_and_wait-Adds env q,
          deploy_and_save-Adds env q,
          authorize_weth_gateway-Adds env q,
          calls.sets_manager,
          calls.sets_address,
          calls.authorizes,
        )
        depth 20 fits 3000

  pub initialize_lending_pool-Adds :
      (pool : ConfigNames) (verify : Bool)
      → Adds (allows q) (initialize_lending_pool env pool verify)
  unfolding initialize_lending_pool
  initialize_lending_pool-Adds pool verify =
      exit_on_error-Adds _ (initialize_steps-Adds pool verify)

  pub add_new_tokens-Adds :
      (pool : ConfigNames) (verify : Bool) → Adds (allows q) (add_new_tokens env pool verify)
  unfolding add_new_tokens
  add_new_tokens-Adds pool verify =
      exit_on_error-Adds (initialize_reserves env pool verify >> pure tt)
        (search (adds_rules, initialize_reserves-Adds))
