-- ===== src/Tasks/Dev.antt =====
-- tasks/dev: the deployment of a development environment, with mock tokens and oracles.
use vinium_lending.Prelude.{
  String, Bool, false, not, none, some, [], ◌∷◌, map, insert, Object, contains_text,
}
use vinium_lending.Effects.{
  Env, set_lending_pool_impl, set_lending_pool_configurator_impl, set_eth_usd_price,
  set_price_oracle, set_lending_rate_oracle, set_lending_pool_collateral_manager, set_pool_pause, M,
  pure, throw, type_error, ask, ◌>>=◌, ◌>>◌,
}
use vinium_lending.Types.ContractId.{
  id_value, lending_pool, lending_pool_configurator, mock_flash_loan_receiver,
  vinium_protocol_data_provider,
}
use vinium_lending.Types.TokenId.{token_contract_ids}
use vinium_lending.Signers.{get_ethers_signers}
use vinium_lending.MiscUtils.{filter_map_by, omit}
use vinium_lending.ContractsHelpers.{
  get_param_per_network, insert_contract_address_in_db, send_and_wait, zero_address,
}
use vinium_lending.ContractsGetters.{
  get_lending_pool, get_lending_pool_addresses_provider, get_lending_pool_configurator_proxy,
  get_pairs_token_aggregator, get_price_oracle, get_weth_gateway,
}
use vinium_lending.ContractsDeployments.{
  authorize_weth_gateway, deploy_lending_pool, deploy_lending_pool_collateral_manager,
  deploy_lending_pool_configurator, deploy_lending_rate_oracle, deploy_mock_flash_loan_receiver,
  deploy_stable_and_variable_tokens_helper, deploy_vi_tokens_and_rates_helper, deploy_vinium_oracle,
  deploy_vinium_protocol_data_provider, deploy_wallet_balancer_provider,
}
use vinium_lending.Configuration.{
  ConfigNames, load_pool_config, get_quote_currency, get_treasury_address,
}
use vinium_lending.ContractAddress.{deploy_vi_token_implementations}
use vinium_lending.InitHelpers.{init_reserves_with, configure_reserves_by_helper}
use vinium_lending.OraclesHelpers.{
  deploy_all_mock_aggregators, set_initial_asset_prices_in_oracle,
  set_initial_market_rates_in_rates_oracle_by_helper,
}
use vinium_lending.MockTokens.{
  deploy_all_mock_tokens, get_all_mocked_tokens, get_all_token_addresses, token_addresses_from,
}
use vinium_lending.Tasks.Steps.{reuse_or_deploy}

-- `defaultTokenList`: every token without an address, but for USD.
abbrev pub default_token_list : (usd : String) → Object String
default_token_list usd = insert "USD" usd (map (λ symbol. (symbol, "")) token_contract_ids)

-- The tokens of `dev:initialize-lending-pool`: those whose symbol has no `UNI_`.
unfoldable pub proto_pool_reserves : Object String → Object String
proto_pool_reserves tokens = filter_map_by tokens (λ key. not (contains_text key "UNI_"))

module _ (env : Env) where
  unfoldable pub dev_deploy_mock_tokens : Bool → M (Unit {0})
  dev_deploy_mock_tokens verify = deploy_all_mock_tokens env verify >> pure tt

  -- markets/avalanche exports no `ViniumConfig`: the property `MarketId` is read of undefined.
  dev_deploy_address_provider : Bool → M (Unit {0})
  dev_deploy_address_provider verify = get_ethers_signers env >> throw type_error

  unfoldable pub dev_deploy_lending_pool : ConfigNames → Bool → M (Unit {0})
  dev_deploy_lending_pool pool verify = do
    provider ← get_lending_pool_addresses_provider env none
    pool_config ← load_pool_config env pool
    pool_impl ← deploy_lending_pool env verify
    send_and_wait env provider (set_lending_pool_impl pool_impl.address)
    pool_address ← ask env (λ h. env.view_text h provider.address "getLendingPool" [])
    pool_proxy ← get_lending_pool env (some pool_address)
    insert_contract_address_in_db env (id_value lending_pool) pool_proxy.address
    configurator_impl ← deploy_lending_pool_configurator env verify
    send_and_wait env provider (set_lending_pool_configurator_impl configurator_impl.address)
    configurator_address ←
        ask env (λ h. env.view_text h provider.address "getLendingPoolConfigurator" [])
    configurator ← get_lending_pool_configurator_proxy env (some configurator_address)
    insert_contract_address_in_db env (id_value lending_pool_configurator) configurator.address
    deploy_stable_and_variable_tokens_helper env pool_proxy.address provider.address verify
    deploy_vi_tokens_and_rates_helper env pool_proxy.address provider.address configurator.address
        verify
    deploy_vi_token_implementations env pool pool_config.reserves_config verify

  unfoldable pub dev_deploy_oracles : ConfigNames → Bool → M (Unit {0})
  dev_deploy_oracles pool verify = do
    config ← load_pool_config env pool
    mock_tokens ← get_all_mocked_tokens env
    let mock_tokens_address =
        token_addresses_from mock_tokens
          (default_token_list config.protocol_global_params.usd_address)
    provider ← get_lending_pool_addresses_provider env none
    admin ← ask env (λ h. env.view_text h provider.address "getPoolAdmin" [])
    fallback_oracle ← get_price_oracle env (some "0x0F9d5ED72f6691E47abe2f79B890C3C33e924092")
    send_and_wait env fallback_oracle
        (set_eth_usd_price config.protocol_global_params.mock_usd_price_in_wei)
    set_initial_asset_prices_in_oracle env config.mocks mock_tokens_address fallback_oracle
    mock_aggregators ← deploy_all_mock_aggregators env config.mocks verify
    let all_token_addresses = get_all_token_addresses mock_tokens
    let (tokens, aggregators) =
        get_pairs_token_aggregator all_token_addresses mock_aggregators config.oracle_quote_currency
    quote ← get_quote_currency env config
    oracle ←
        deploy_vinium_oracle env tokens aggregators fallback_oracle.address quote
          config.oracle_quote_unit verify
    send_and_wait env provider (set_price_oracle fallback_oracle.address)
    rate_oracle ← deploy_lending_rate_oracle env verify
    send_and_wait env provider (set_lending_rate_oracle rate_oracle.address)
    set_initial_market_rates_in_rates_oracle_by_helper env config.lending_rate_oracle_rates_common
        (omit all_token_addresses ("USD" ∷ [])) rate_oracle admin
    send_and_wait env provider (set_price_oracle oracle.address)
    send_and_wait env provider (set_lending_rate_oracle rate_oracle.address)

  dev_gateway : M String
  dev_gateway = do gateway ← get_weth_gateway env none; pure gateway.address

  unfoldable pub dev_initialize_lending_pool : ConfigNames → Bool → M (Unit {0})
  unfolding dev_gateway
  dev_initialize_lending_pool pool verify = do
    config ← load_pool_config env pool
    mock_tokens ← get_all_mocked_tokens env
    let all_token_addresses = get_all_token_addresses mock_tokens
    provider ← get_lending_pool_addresses_provider env none
    let reserves = proto_pool_reserves all_token_addresses
    helpers ← deploy_vinium_protocol_data_provider env provider.address verify
    insert_contract_address_in_db env (id_value vinium_protocol_data_provider) helpers.address
    admin ← ask env (λ h. env.view_text h provider.address "getPoolAdmin" [])
    init_reserves_with env (get_treasury_address env config) (some zero_address)
        (λ treasury incentives_controller. record {
          vi_token_name_prefix = config.vi_token_name_prefix;
          stable_vd_token_name_prefix = config.stable_vd_token_name_prefix;
          variable_vd_token_name_prefix = config.variable_vd_token_name_prefix;
          treasury_address = treasury;
          incentives_controller = incentives_controller;
          pool_name = pool;
          verify = verify;
        })
        config.reserves_config reserves
    configure_reserves_by_helper env config.reserves_config reserves helpers admin
    manager ← deploy_lending_pool_collateral_manager env verify
    send_and_wait env provider (set_lending_pool_collateral_manager manager.address)
    receiver ← deploy_mock_flash_loan_receiver env provider.address verify
    insert_contract_address_in_db env (id_value mock_flash_loan_receiver) receiver.address
    deploy_wallet_balancer_provider env verify
    pool_address ← ask env (λ h. env.view_text h provider.address "getLendingPool" [])
    gateway ←
        reuse_or_deploy env (get_param_per_network env config.weth_gateway env.network_name)
          dev_gateway
    authorize_weth_gateway env gateway pool_address
    configurator ← get_lending_pool_configurator_proxy env none
    send_and_wait env configurator (set_pool_pause false)

  unfoldable pub dev_wallet_balance_provider : Bool → M (Unit {0})
  dev_wallet_balance_provider verify = deploy_wallet_balancer_provider env verify >> pure tt
