-- ===== src/OraclesHelpers.antt =====
-- helpers/oracles-helpers.ts: the borrow rates and prices that the oracles start with, and the mock
-- aggregators of test networks.
pub mod Rates
pub mod Adds
pub mod Listed
use vinium_lending.Prelude.{
  ℕ, String, Bool, Option, none, some, List, [], ◌∷◌, map, if◌then◌else◌, ◌==◌, lookup, insert,
  keys, Object,
}
use vinium_lending.Effects.{
  Env, transfer_ownership, set_oracle_borrow_rates, set_oracle_ownership, set_asset_price, M, pure,
  throw, or_throw, type_error, ◌>>=◌, ◌>>◌,
}
use vinium_lending.Types.Config.{IMarketRates}
use vinium_lending.MiscUtils.{chunk}
use vinium_lending.ContractsHelpers.{Contract, send_and_wait}
use vinium_lending.ContractsGetters.{find_index, entry_value, get_stable_and_variable_tokens_helper}
use vinium_lending.ContractsDeployments.{deploy_mock_aggregator}

-- `const [, value] = Object.entries(o)[Object.keys(o).findIndex((value) => value === symbol)]`
abbrev pub value_at {ℓ} : {V : Type ℓ} → String → Object V → Option V
value_at symbol o = entry_value o (find_index symbol (keys o))

-- The first loop of `setInitialMarketRatesInRatesOracleByHelper`: `assetAddresses` beside
-- `borrowRates`.
market_rows : Object IMarketRates → Object String → M (List (String × String))
market_rows [] assets = pure []
market_rows ((symbol, rates) ∷ market_rates) assets = do
  address ← or_throw (value_at symbol assets) type_error
  rows ← market_rows market_rates assets
  pure ((address, rates.borrow_rate) ∷ rows)

abbrev pub rates_chunks : ℕ
rates_chunks = 20

module _ (env : Env) where
  -- The loop over the chunks: `chunkedRates` has as many as `chunkedTokens`.
  send_rates : (helper oracle : Contract) → List (List String) → List (List String) → M (Unit {0})
  send_rates helper oracle [] _ = pure tt
  send_rates helper oracle (tokens ∷ more) [] = throw type_error
  send_rates helper oracle (tokens ∷ more) (rates ∷ others) = do
    send_and_wait env helper (set_oracle_borrow_rates tokens rates oracle.address)
    send_rates helper oracle more others

  unfoldable pub set_initial_market_rates_in_rates_oracle_by_helper :
      Object IMarketRates → Object String → Contract → String → M (Unit {0})
  unfolding market_rows send_rates
  set_initial_market_rates_in_rates_oracle_by_helper market_rates assets oracle admin = do
    helper ← get_stable_and_variable_tokens_helper env none
    rows ← market_rows market_rates assets
    send_and_wait env oracle (transfer_ownership helper.address)
    send_rates helper oracle (chunk (map (λ r. r.0) rows) rates_chunks)
        (chunk (map (λ r. r.1) rows) rates_chunks)
    send_and_wait env helper (set_oracle_ownership oracle.address admin)

  unfoldable pub set_asset_prices_in_oracle :
      Object String → Object String → Contract → M (Unit {0})
  set_asset_prices_in_oracle [] assets price_oracle = pure tt
  set_asset_prices_in_oracle ((symbol, price) ∷ prices) assets price_oracle = do
    address ← or_throw (value_at symbol assets) type_error
    send_and_wait env price_oracle (set_asset_price address price)
    set_asset_prices_in_oracle prices assets price_oracle

  -- It differs from `setAssetPricesInOracle` by console output only.
  unfoldable pub set_initial_asset_prices_in_oracle :
      Object String → Object String → Contract → M (Unit {0})
  unfolding set_asset_prices_in_oracle
  set_initial_asset_prices_in_oracle prices assets price_oracle =
      set_asset_prices_in_oracle prices assets price_oracle

  -- The loop over `Object.keys(initialPrices)`, with the aggregators so far.
  deploy_aggregators : Object String → List String → Bool → Object Contract → M (Object Contract)
  deploy_aggregators initial_prices [] verify aggregators = pure aggregators
  deploy_aggregators initial_prices (token ∷ tokens) verify aggregators = do
    aggregators' ← if token == "ETH" then pure aggregators else do
      price ← or_throw (value_at token initial_prices) type_error
      aggregator ← deploy_mock_aggregator env price verify
      pure (insert token aggregator aggregators)
    deploy_aggregators initial_prices tokens verify aggregators'

  unfoldable pub deploy_mock_aggregators : Object String → Bool → M (Object Contract)
  unfolding deploy_aggregators
  deploy_mock_aggregators initial_prices verify =
      deploy_aggregators initial_prices (keys initial_prices) verify []

  unfoldable pub deploy_all_mock_aggregators : Object String → Bool → M (Object String)
  unfolding deploy_aggregators
  deploy_all_mock_aggregators initial_prices verify = do
    aggregators ← deploy_aggregators initial_prices (keys initial_prices) verify []
    pure (map (λ e. (e.0, e.1.address)) aggregators)
