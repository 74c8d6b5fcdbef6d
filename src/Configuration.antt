-- ===== src/Configuration.antt =====
-- helpers/configuration.ts: the choice of a market, of the admins and of the addresses that depend
-- on the network.
pub mod Choice
pub mod Risk
pub mod Adds
use vinium_lending.Prelude.{
  ℕ, String, Bool, true, false, Option, none, some, List, [], ◌∷◌, if◌then◌else◌, ◌==◌, ◌||◌,
  truthy, is_text, contains_text, lookup, keys, includes, Object, get_elem?,
}
use vinium_lending.Effects.{
  Env, M, pure, throw, type_error, unsupported_config, weth_not_set, quote_not_set, ◌>>=◌,
}
use vinium_lending.Types.Config.{
  IParamsPerNetwork, IReserveParams, IMarketRates, ICommonConfiguration,
}
use vinium_lending.Markets.{avalanche_config, commons_config}
use vinium_lending.MiscUtils.{filter_map_by}
use vinium_lending.Signers.{get_ethers_signers}
use vinium_lending.ContractsHelpers.{ViniumPools, get_param_per_network, get_param_per_pool}
use vinium_lending.ContractsDeployments.{deploy_weth_mocked}

pub data ConfigNames : Type 0 where
  commons vinium matic amm avalanche : ConfigNames

module _ (env : Env) where
  unfoldable pub load_pool_config : ConfigNames → M ICommonConfiguration
  load_pool_config ConfigNames.avalanche = pure (avalanche_config env.decimals)
  load_pool_config ConfigNames.commons = pure (commons_config env.decimals)
  load_pool_config _ = throw unsupported_config

  unfoldable pub get_reserves_config_by_pool : ViniumPools → Object IReserveParams
  unfolding get_param_per_pool
  get_reserves_config_by_pool pool =
      let config = avalanche_config env.decimals in
      get_param_per_pool (config.reserves_config, config.reserves_config) pool

  -- `process.env.FORK ? process.env.FORK : DRE.network.name`
  unfoldable pub current_network : String
  current_network = elim (truthy (env.getenv "FORK")) [ none ↦ env.network_name | some fork ↦ fork ]

  -- The address of the configuration, or that of an account; `none` is `undefined`.
  admin_or_account : IParamsPerNetwork String → ℕ → M (Option String)
  unfolding current_network
  admin_or_account admins index = elim (truthy (get_param_per_network env admins current_network)) [
    | some target ↦ pure (some target)
    | none ↦ do address_list ← get_ethers_signers env; pure (get_elem? address_list index)
  ]

  unfoldable pub get_genesis_pool_admin : ICommonConfiguration → M (Option String)
  unfolding admin_or_account
  get_genesis_pool_admin config = admin_or_account config.pool_admin config.pool_admin_index

  unfoldable pub get_emergency_admin : ICommonConfiguration → M (Option String)
  unfolding admin_or_account
  get_emergency_admin config = admin_or_account config.emergency_admin config.emergency_admin_index

  unfoldable pub get_treasury_address : ICommonConfiguration → Option String
  get_treasury_address config =
      get_param_per_network env config.reserve_factor_treasury_address current_network

  unfoldable pub get_vi_token_domain_separator_per_network :
      String → ICommonConfiguration → Option String
  get_vi_token_domain_separator_per_network network config =
      get_param_per_network env config.vi_token_domain_separator network

  -- The address of the configuration, or a mock that is deployed off the main network.
  weth_or_mock : IParamsPerNetwork String → String → M String
  weth_or_mock param network = elim (truthy (get_param_per_network env param network)) [
    | some address ↦ pure address
    | none ↦
        if contains_text network "main"
        then throw weth_not_set
        else do weth ← deploy_weth_mocked env false; pure weth.address
  ]

  unfoldable pub get_weth_address : ICommonConfiguration → M String
  unfolding weth_or_mock current_network
  get_weth_address config = weth_or_mock config.weth current_network

  unfoldable pub get_wrapped_native_token_address : ICommonConfiguration → M String
  unfolding weth_or_mock
  get_wrapped_native_token_address config =
      weth_or_mock config.wrapped_native_token
        (if is_text (env.getenv "MAINNET_FORK") "true" then "main" else env.network_name)

  -- `Object.keys(undefined)` throws, if there is a rate at all to be filtered.
  filter_rates : Object IMarketRates → Option (Object String) → M (Object IMarketRates)
  filter_rates rates (some assets) = pure (filter_map_by rates (includes (keys assets)))
  filter_rates [] none = pure []
  filter_rates (_ ∷ _) none = throw type_error

  unfoldable pub get_lending_rate_oracles : ICommonConfiguration → M (Object IMarketRates)
  unfolding filter_rates current_network
  get_lending_rate_oracles config =
      filter_rates config.lending_rate_oracle_rates_common
        (lookup current_network config.reserve_assets)

  unfoldable pub get_quote_currency : ICommonConfiguration → M String
  unfolding get_weth_address
  get_quote_currency config =
      if config.oracle_quote_currency == "ETH" || config.oracle_quote_currency == "WETH"
      then get_weth_address config
      else if config.oracle_quote_currency == "USD"
      then pure config.protocol_global_params.usd_address
      else throw quote_not_set
