-- ===== src/Tasks/Oracles.antt =====
-- tasks/full/3_oracles.ts. Its `catch` prints and throws the same error again.
pub mod Adds
use vinium_lending.Prelude.{
  String, Bool, true, false, Option, none, some, List, [], ◌∷◌, Object, insert,
}
use vinium_lending.Effects.{
  Env, set_asset_sources, set_price_oracle, set_lending_rate_oracle, M, pure, throw, or_throw,
  rejected, type_error, ◌>>=◌, ◌>>◌,
}
use vinium_lending.Types.Config.{ICommonConfiguration, IMarketRates}
use vinium_lending.MiscUtils.{omit, not_falsy_or_zero_address}
use vinium_lending.ContractsHelpers.{Contract, get_param_per_network, send_and_wait}
use vinium_lending.ContractsGetters.{
  get_lending_pool_addresses_provider, get_lending_rate_oracle, get_vinium_oracle,
  get_quote_currencies, get_pairs_token_aggregator,
}
use vinium_lending.ContractsDeployments.{deploy_lending_rate_oracle, deploy_vinium_oracle}
use vinium_lending.Configuration.{
  ConfigNames, load_pool_config, get_genesis_pool_admin, get_lending_rate_oracles,
  get_quote_currency,
}
use vinium_lending.OraclesHelpers.{set_initial_market_rates_in_rates_oracle_by_helper}

-- `{ ...reserveAssets, USD: UsdAddress }`; `undefined` spreads to nothing.
abbrev pub tokens_to_watch : Option (Object String) → String → Object String
tokens_to_watch none usd = insert "USD" usd []
tokens_to_watch (some assets) usd = insert "USD" usd assets

-- `getPairsTokenAggregator`; without sources, the search for the source of an asset throws.
pub pairs_or_throw : Object String → Option (Object String) → String → M (List String × List String)
pairs_or_throw tokens (some aggregators) quote =
    pure (get_pairs_token_aggregator tokens aggregators quote)
pairs_or_throw tokens none quote = elim (omit tokens (get_quote_currencies quote)) [
  | [] ↦ pure ([], [])
  | _ ∷ _ ↦ throw type_error
]

module _ (env : Env) where
  -- The price oracle, reused or deployed, with its sources set.
  pub price_oracle : ICommonConfiguration → List String → List String → Bool → M Contract
  price_oracle config tokens aggregators verify = do
    let at_market = get_param_per_network env config.vinium_oracle env.network_name
    oracle ← elim (not_falsy_or_zero_address env at_market) [
      | true ↦ get_vinium_oracle env at_market
      | false ↦ do
        quote ← get_quote_currency env config
        fallback ←
            or_throw (get_param_per_network env config.fallback_oracle env.network_name) rejected
        deploy_vinium_oracle env tokens aggregators fallback quote config.oracle_quote_unit verify
    ]
    send_and_wait env oracle (set_asset_sources tokens aggregators)
    pure oracle

  -- The rates oracle, reused or deployed, a new one with the market's rates. The admin is undefined
  -- only without a first account, where the deployment has failed already.
  pub rate_oracle :
      ICommonConfiguration → Object IMarketRates → Object String → Option String → Bool → M Contract
  rate_oracle config rates tokens admin verify = do
    let at_market = get_param_per_network env config.lending_rate_oracle env.network_name
    elim (not_falsy_or_zero_address env at_market) [
      | true ↦ get_lending_rate_oracle env at_market
      | false ↦ do
        oracle ← deploy_lending_rate_oracle env verify
        admin_address ← or_throw admin rejected
        set_initial_market_rates_in_rates_oracle_by_helper env rates (omit tokens ("USD" ∷ []))
            oracle admin_address
        pure oracle
    ]

  unfoldable pub deploy_oracles : ConfigNames → Bool → M (Unit {0})
  unfolding pairs_or_throw price_oracle rate_oracle
  deploy_oracles pool verify = do
    config ← load_pool_config env pool
    rates ← get_lending_rate_oracles env config
    provider ← get_lending_pool_addresses_provider env none
    admin ← get_genesis_pool_admin env config
    let assets = get_param_per_network env config.reserve_assets env.network_name
    let tokens = tokens_to_watch assets config.protocol_global_params.usd_address
    (watched, aggregators) ←
        pairs_or_throw tokens
          (get_param_per_network env config.chainlink_aggregator env.network_name)
          config.oracle_quote_currency
    prices ← price_oracle config watched aggregators verify
    lending_rates ← rate_oracle config rates tokens admin verify
    send_and_wait env provider (set_price_oracle prices.address)
    send_and_wait env provider (set_lending_rate_oracle lending_rates.address)
