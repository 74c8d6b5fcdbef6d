-- ===== src/Tasks/Initialize.antt =====
-- tasks/full/4_data-provider.ts, 5-deploy-wethGateWay.ts, 6-initialize.ts and
-- 7-add-new-tokens.ts.
pub mod Adds
use vinium_lending.Prelude.{String, Bool, none, some, [], if◌then◌else◌}
use vinium_lending.Effects.{
  Env, set_lending_pool_collateral_manager, set_address, M, pure, throw, or_throw, rejected,
  invalid_chain_id, reserve_assets_undefined, ask, ◌>>=◌, ◌>>◌,
}
use vinium_lending.Types.Config.{ICommonConfiguration}
use vinium_lending.ContractsHelpers.{Contract, get_param_per_network, send_and_wait}
use vinium_lending.ContractsGetters.{
  get_lending_pool_addresses_provider, get_vinium_protocol_data_provider, get_weth_gateway,
}
use vinium_lending.ContractsDeployments.{
  authorize_weth_gateway, deploy_lending_pool_collateral_manager,
  deploy_vinium_protocol_data_provider, deploy_wallet_balancer_provider, deploy_weth_gateway,
}
use vinium_lending.Configuration.{
  ConfigNames, load_pool_config, get_treasury_address, get_wrapped_native_token_address,
}
use vinium_lending.InitHelpers.{init_reserves_with, configure_reserves_by_helper}
use vinium_lending.Tasks.Steps.{reuse_or_deploy, exit_on_error, is_chain}

-- The id of the data provider at the addresses provider.
abbrev data_provider_id : String
data_provider_id = "0x0100000000000000000000000000000000000000000000000000000000000000"

module _ (env : Env) where
  unfoldable pub deploy_data_provider : Bool → M (Unit {0})
  deploy_data_provider verify h = exit_on_error (
      (get_lending_pool_addresses_provider env none >>= λ provider.
      deploy_vinium_protocol_data_provider env provider.address verify >> pure tt)
        h)

  unfoldable pub full_deploy_weth_gateway : ConfigNames → Bool → M (Unit {0})
  full_deploy_weth_gateway pool verify = do
    pool_config ← load_pool_config env pool
    weth ← get_wrapped_native_token_address env pool_config
    if is_chain env.chain_id
        then deploy_weth_gateway env weth verify >> pure tt
        else throw invalid_chain_id

  collateral_manager : Bool → M String
  collateral_manager verify = do
    manager ← deploy_lending_pool_collateral_manager env verify
    pure manager.address

  gateway_in_db : M String
  gateway_in_db = do gateway ← get_weth_gateway env none; pure gateway.address

  -- What `full:initialize-lending-pool` and `full:add-new-tokens` share: the reserves of the market,
  -- initialised and configured.
  unfoldable pub initialize_reserves : ConfigNames → Bool → M (ICommonConfiguration × Contract)
  initialize_reserves pool verify = do
    config ← load_pool_config env pool
    let incentives = get_param_per_network env config.incentives_controller env.network_name
    provider ← get_lending_pool_addresses_provider env none
    helpers ← get_vinium_protocol_data_provider env none
    admin ← ask env (λ h. env.view_text h provider.address "getPoolAdmin" [])
    _ ← ask env (λ h. env.view_text h provider.address "getPriceOracle" [])
    reserve_assets ←
        or_throw (get_param_per_network env config.reserve_assets env.network_name)
          reserve_assets_undefined
    init_reserves_with env (get_treasury_address env config) incentives
        (λ treasury incentives_controller. record {
          vi_token_name_prefix = config.vi_token_name_prefix;
          stable_vd_token_name_prefix = config.stable_vd_token_name_prefix;
          variable_vd_token_name_prefix = config.variable_vd_token_name_prefix;
          treasury_address = treasury;
          incentives_controller = incentives_controller;
          pool_name = pool;
          verify = verify;
        })
        config.reserves_config reserve_assets
    configure_reserves_by_helper env config.reserves_config reserve_assets helpers admin
    pure (config, provider)

  -- The body of the `try`.
  pub initialize_steps : ConfigNames → Bool → M (Unit {0})
  unfolding collateral_manager gateway_in_db
  initialize_steps pool verify = do
    (config, provider) ← initialize_reserves pool verify
    manager ←
        reuse_or_deploy env
          (get_param_per_network env config.lending_pool_collateral_manager env.network_name)
          (collateral_manager verify)
    send_and_wait env provider (set_lending_pool_collateral_manager manager)
    data_provider ← get_vinium_protocol_data_provider env none
    send_and_wait env provider (set_address data_provider_id data_provider.address)
    deploy_wallet_balancer_provider env verify
    pool_address ← ask env (λ h. env.view_text h provider.address "getLendingPool" [])
    gateway ←
        reuse_or_deploy env (get_param_per_network env config.weth_gateway env.network_name)
          gateway_in_db
    authorize_weth_gateway env gateway pool_address

  unfoldable pub initialize_lending_pool : ConfigNames → Bool → M (Unit {0})
  unfolding initialize_steps
  initialize_lending_pool pool verify h = exit_on_error (initialize_steps pool verify h)

  -- The rest of `full:add-new-tokens` is commented out in the source.
  unfoldable pub add_new_tokens : ConfigNames → Bool → M (Unit {0})
  add_new_tokens pool verify h = exit_on_error ((initialize_reserves pool verify >> pure tt) h)
