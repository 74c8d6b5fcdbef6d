-- ===== src/Tasks/Verifications.antt =====
-- tasks/verifications/, tasks/misc/verify-sc.ts and tasks/migrations/avalanche.mainnet.ts: what is
-- verified of a deployment at the block explorers. Console output is left out, and what the source
-- computes and does not use.
pub mod Adds
use vinium_lending.Prelude.{
  String, Bool, Option, none, some, List, [], ◌∷◌, if◌then◌else◌, lookup, cat, Object,
}
use vinium_lending.Effects.{
  Env, Arg, one, many, undefined, M, pure, or_throw, type_error, reserves_config_not_found, ask,
  when, ◌>>=◌, ◌>>◌,
}
use vinium_lending.Types.ContractId.{
  id_value, default_reserve_interest_rate_strategy, initializable_admin_upgradeability_proxy,
  lending_pool, lending_pool_addresses_provider, lending_pool_addresses_provider_registry,
  lending_pool_collateral_manager, lending_pool_configurator, lending_rate_oracle, stable_vd_token,
  variable_vd_token, vi_token, vinium_oracle, vinium_protocol_data_provider,
  wallet_balance_provider, weth_gateway,
}
use vinium_lending.Types.Config.{IReserveParams, ICommonConfiguration}
use vinium_lending.MiscUtils.{not_falsy_or_zero_address}
use vinium_lending.Verification.{check_verification, verify_contract, verify_etherscan_contract}
use vinium_lending.ContractsHelpers.{Contract, get_param_per_network, zero_address}
use vinium_lending.ContractsGetters.{
  connect, get_address_by_id, get_interest_rate_strategy, get_lending_pool_addresses_provider,
  get_lending_pool_addresses_provider_registry, get_lending_pool_collateral_manager_impl,
  get_lending_pool_configurator_impl, get_lending_pool_impl, get_lending_rate_oracle, get_proxy,
  get_stable_vd_token, get_variable_vd_token, get_vi_token, get_vinium_oracle,
  get_vinium_protocol_data_provider, get_wallet_provider, get_weth_gateway,
}
use vinium_lending.Configuration.{
  ConfigNames, load_pool_config, get_genesis_pool_admin, get_lending_rate_oracles,
  get_quote_currency, get_treasury_address, get_wrapped_native_token_address,
}
use vinium_lending.Tasks.Oracles.{tokens_to_watch, pairs_or_throw}

-- A setting as an argument.
abbrev pub arg_of : Option String → Arg
arg_of none = undefined
arg_of (some value) = one value

module _ (env : Env) where
  -- `notFalsyOrZeroAddress(address) ? await getter(address) : await getter()`
  pub given_or_recorded : (Option String → M Contract) → Option String → M Contract
  given_or_recorded getter address =
      if not_falsy_or_zero_address env address then getter address else getter none

  -- `await verifyContract(id, instance, args)`
  abbrev pub verify_instance : String → Contract → List Arg → M (Unit {0})
  verify_instance id instance_ args = verify_contract env id instance_.address args

  abbrev pub verify_proxy : Contract → List Arg → M (Unit {0})
  verify_proxy = verify_instance (id_value initializable_admin_upgradeability_proxy)

  -- The part under `if (all)`.
  pub verify_implementations : ICommonConfiguration → (provider registry : Contract) → M (Unit {0})
  verify_implementations config provider registry = do
    pool ←
        given_or_recorded (get_lending_pool_impl env)
          (get_param_per_network env config.lending_pool env.network_name)
    configurator ←
        given_or_recorded (get_lending_pool_configurator_impl env)
          (get_param_per_network env config.lending_pool_configurator env.network_name)
    manager ←
        given_or_recorded (get_lending_pool_collateral_manager_impl env)
          (get_param_per_network env config.lending_pool_collateral_manager env.network_name)
    data_provider ← get_vinium_protocol_data_provider env none
    wallet_provider ← get_wallet_provider env none
    gateway ←
        given_or_recorded (get_weth_gateway env)
          (get_param_per_network env config.weth_gateway env.network_name)
    verify_instance (id_value lending_pool_addresses_provider) provider (one config.market_id ∷ [])
    verify_instance (id_value lending_pool_addresses_provider_registry) registry []
    verify_instance (id_value lending_pool) pool []
    verify_instance (id_value lending_pool_configurator) configurator []
    verify_instance (id_value lending_pool_collateral_manager) manager []
    verify_instance (id_value vinium_protocol_data_provider) data_provider
        (one provider.address ∷ [])
    verify_instance (id_value wallet_balance_provider) wallet_provider []
    native_token ← get_wrapped_native_token_address env config
    verify_instance (id_value weth_gateway) gateway (one native_token ∷ [])

  unfoldable pub verify_general : ConfigNames → (all : Bool) → M (Unit {0})
  unfolding verify_implementations
  verify_general pool all = do
    config ← load_pool_config env pool
    provider ← get_lending_pool_addresses_provider env none
    registry ←
        given_or_recorded (get_lending_pool_addresses_provider_registry env)
          (get_param_per_network env config.provider_registry env.network_name)
    pool_address ← ask env (λ h. env.view_text h provider.address "getLendingPool" [])
    configurator_address ←
        ask env (λ h. env.view_text h provider.address "getLendingPoolConfigurator" [])
    manager_address ←
        ask env (λ h. env.view_text h provider.address "getLendingPoolCollateralManager" [])
    pool_proxy ← get_proxy env pool_address
    configurator_proxy ← get_proxy env configurator_address
    manager_proxy ← get_proxy env manager_address
    when all (verify_implementations config provider registry)
    verify_proxy pool_proxy (one provider.address ∷ [])
    verify_proxy configurator_proxy (one provider.address ∷ [])
    verify_proxy manager_proxy []

  -- A field of `await lendingPoolProxy.getReserveData(tokenAddress)`.
  pub reserve_data : Contract → String → String → M String
  reserve_data pool token field =
      ask env (λ h. env.view_text h pool.address (cat "getReserveData." field) (token ∷ []))

  -- A proxy that the configurator has made.
  pub verify_token_proxy : String → Contract → M (Unit {0})
  verify_token_proxy address configurator = do
    proxy ← get_proxy env address
    verify_proxy proxy (one configurator.address ∷ [])

  -- An implementation, if its address is in deployed-contracts.json.
  pub verify_token :
      (id : String) → Option String → (Option String → M Contract) → List Arg → M (Unit {0})
  verify_token id none getter args = pure tt
  verify_token id (some address) getter args = do
    token ← getter (some address)
    verify_instance id token args

  -- The rest of the loop's body, once the reserve's configuration is found: the proxies, the strategy,
  -- and the three implementations.
  pub verify_reserve :
      (treasury : Option String)
      → (provider pool configurator : Contract)
      → (token token_address stable variable vi strategy : String) → IReserveParams
      → M (Unit {0})
  unfolding verify_token_proxy verify_token
  verify_reserve treasury provider pool configurator token token_address stable variable vi strategy
        params =
      do
        verify_token_proxy stable configurator
        verify_token_proxy variable configurator
        verify_token_proxy vi configurator
        rates ← get_interest_rate_strategy env (some strategy)
        verify_instance (id_value default_reserve_interest_rate_strategy) rates (
            one provider.address
            ∷ one params.strategy.optimal_utilization_rate
            ∷ one params.strategy.base_variable_borrow_rate
            ∷ one params.strategy.variable_rate_slope1
            ∷ one params.strategy.variable_rate_slope2
            ∷ one params.strategy.stable_rate_slope1
            ∷ one params.strategy.stable_rate_slope2
            ∷ [])
        stable_debt ← get_address_by_id env (cat "stableVd" token)
        variable_debt ← get_address_by_id env (cat "variableVd" token)
        vi_token_address ← get_address_by_id env (cat "vi" token)
        verify_token (id_value vi_token) vi_token_address (get_vi_token env) (
            one pool.address
            ∷ one token_address
            ∷ arg_of treasury
            ∷ one (cat "Vinium interest bearing " token)
            ∷ one (cat "a" token)
            ∷ one zero_address
            ∷ [])
        verify_token (id_value stable_vd_token) stable_debt (get_stable_vd_token env) (
            one pool.address
            ∷ one token_address
            ∷ one (cat "Vinium stable debt bearing " token)
            ∷ one (cat "stableVd" token)
            ∷ one zero_address
            ∷ [])
        verify_token (id_value variable_vd_token) variable_debt (get_variable_vd_token env) (
            one pool.address
            ∷ one token_address
            ∷ one (cat "Vinium variable debt bearing " token)
            ∷ one (cat "variableVd" token)
            ∷ one zero_address
            ∷ [])

  -- The loop over the assets of the network.
  unfoldable pub verify_reserves :
      (treasury : Option String)
      → (provider pool configurator : Contract) → Object IReserveParams
      → Object String
      → M (Unit {0})
  unfolding verify_reserve
  verify_reserves treasury provider pool configurator configs [] = pure tt
  verify_reserves treasury provider pool configurator configs ((token, token_address) ∷ assets) = do
    stable ← reserve_data pool token_address "stableVdTokenAddress"
    variable ← reserve_data pool token_address "variableVdTokenAddress"
    vi ← reserve_data pool token_address "viTokenAddress"
    strategy ← reserve_data pool token_address "interestRateStrategyAddress"
    params ← or_throw (lookup token configs) (reserves_config_not_found token)
    verify_reserve treasury provider pool configurator token token_address stable variable vi
        strategy params
    verify_reserves treasury provider pool configurator configs assets

  unfoldable pub verify_tokens : ConfigNames → M (Unit {0})
  unfolding verify_reserves
  verify_tokens pool_name = do
    config ← load_pool_config env pool_name
    provider ← get_lending_pool_addresses_provider env none
    pool_address ← ask env (λ h. env.view_text h provider.address "getLendingPool" [])
    pool ← connect env "LendingPool" pool_address
    configurator_address ←
        ask env (λ h. env.view_text h provider.address "getLendingPoolConfigurator" [])
    configurator ← connect env "LendingPoolConfigurator" configurator_address
    assets ← or_throw (get_param_per_network env config.reserve_assets env.network_name) type_error
    verify_reserves (get_treasury_address env config) provider pool configurator
        config.reserves_config assets

  -- The price oracle, if the market names it. The inner test of the source repeats the outer one.
  pub verify_vinium_oracle : ICommonConfiguration → List String → List String → M (Unit {0})
  verify_vinium_oracle config tokens aggregators = do
    let address = get_param_per_network env config.vinium_oracle env.network_name
    let fallback = get_param_per_network env config.fallback_oracle env.network_name
    if not_falsy_or_zero_address env address
        then (do
          oracle ← get_vinium_oracle env address
          quote ← get_quote_currency env config
          verify_instance (id_value vinium_oracle) oracle (
              many tokens
              ∷ many aggregators
              ∷ arg_of fallback
              ∷ one quote
              ∷ one config.oracle_quote_unit
              ∷ []))
        else pure tt

  pub verify_rate_oracle : ICommonConfiguration → M (Unit {0})
  verify_rate_oracle config = do
    let address = get_param_per_network env config.lending_rate_oracle env.network_name
    if not_falsy_or_zero_address env address
        then (do
          oracle ← get_lending_rate_oracle env address
          verify_instance (id_value lending_rate_oracle) oracle [])
        else pure tt

  -- The flag `all` is not used; the `catch` throws the same error again.
  unfoldable pub verify_oracles : ConfigNames → M (Unit {0})
  unfolding verify_vinium_oracle verify_rate_oracle
  verify_oracles pool = do
    config ← load_pool_config env pool
    _ ← get_lending_rate_oracles env config
    _ ← get_lending_pool_addresses_provider env none
    _ ← get_genesis_pool_admin env config
    (tokens, aggregators) ←
        pairs_or_throw
          (tokens_to_watch (get_param_per_network env config.reserve_assets env.network_name)
            config.protocol_global_params.usd_address)
          (get_param_per_network env config.chainlink_aggregator env.network_name)
          config.oracle_quote_currency
    verify_vinium_oracle config tokens aggregators
    verify_rate_oracle config

  -- `libraries` goes to the task of hardhat as it is, and is left out.
  unfoldable pub verify_sc : (address : String) → List Arg → M (Unit {0})
  verify_sc address constructor_arguments = do
    check_verification env
    verify_etherscan_contract env address constructor_arguments

  -- `avalanche:mainnet`: its other steps are commented out in the source. `printContracts` and the
  -- Tenderly information only print.
  unfoldable pub avalanche_mainnet : ConfigNames → Bool → M (Unit {0})
  avalanche_mainnet pool verify = do
    when verify (check_verification env)
    when verify (verify_oracles pool)
