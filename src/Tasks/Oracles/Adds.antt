-- ===== src/Tasks/Oracles/Adds.antt =====
-- What `full:deploy-oracles` adds to the history, under a test that lets its transactions through.
use vinium_lending.Prelude.{String, Bool, true, ◌≡◌, Option, none, some, List, [], Object}
use vinium_lending.Effects.{
  Env, Action, Call, set_asset_sources, set_price_oracle, set_lending_rate_oracle, type_error,
}
use vinium_lending.Effects.Adds.{
  Adds, allows, adds_rules, Adds-bind, Adds-elim_bool, Adds-elim_list, Adds-pure, Adds-throw,
}
use vinium_lending.Types.Config.{ICommonConfiguration, IMarketRates}
use vinium_lending.MiscUtils.{omit, not_falsy_or_zero_address}
use vinium_lending.ContractsHelpers.{get_param_per_network}
use vinium_lending.ContractsHelpers.Adds.{allows-Requests, send_and_wait-Adds}
use vinium_lending.ContractsGetters.{get_quote_currencies}
use vinium_lending.ContractsGetters.Adds.{getter_rules}
use vinium_lending.ContractsDeployments.{deploy_lending_rate_oracle, deploy_vinium_oracle}
use vinium_lending.ContractsDeployments.Adds.{deploy_and_save-Adds}
use vinium_lending.Configuration.{ConfigNames}
use vinium_lending.Configuration.Adds.{
  deploy_weth_mocked-Adds, load_pool_config-Adds, get_genesis_pool_admin-Adds,
  get_lending_rate_oracles-Adds, get_quote_currency-Adds,
}
use vinium_lending.OraclesHelpers.Adds.{RateCalls, set_initial_market_rates-Adds}
use vinium_lending.Tasks.Oracles.{pairs_or_throw, price_oracle, rate_oracle, deploy_oracles}

-- The test lets through the transactions of the task.
pub record OracleCalls (q : Call → Bool) : Type 0 where
  pub rates : RateCalls q
  pub sets_sources : (assets sources : List String) → q (set_asset_sources assets sources) ≡ true
  pub sets_prices : (oracle : String) → q (set_price_oracle oracle) ≡ true
  pub sets_rates : (oracle : String) → q (set_lending_rate_oracle oracle) ≡ true

pub pairs_or_throw-Adds :
    {p : Action → Bool} (tokens : Object String) (aggregators : Option (Object String))
    (quote : String)
    → Adds p (pairs_or_throw tokens aggregators quote)
unfolding pairs_or_throw
pairs_or_throw-Adds tokens (some aggregators) quote = Adds-pure _
pairs_or_throw-Adds tokens none quote =
    Adds-elim_list (omit tokens (get_quote_currencies quote)) _ _ (Adds-pure ([], []))
      λ entry entries. Adds-throw type_error

module _ (env : Env) {q : Call → Bool} (calls : OracleCalls q) where
  price_oracle-Adds :
      (config : ICommonConfiguration) (tokens aggregators : List String) (verify : Bool)
      → Adds (allows q) (price_oracle env config tokens aggregators verify)
  unfolding price_oracle deploy_vinium_oracle
  price_oracle-Adds config tokens aggregators verify =
      Adds-bind _ _
        (Adds-elim_bool
          (not_falsy_or_zero_address env
            (get_param_per_network env config.vinium_oracle env.network_name))
          _ _ (search (getter_rules, allows-Requests))
          (search (
            adds_rules,
            get_quote_currency-Adds env (deploy_weth_mocked-Adds env q),
            deploy_and_save-Adds env q,
          )))
        λ oracle. search (adds_rules, send_and_wait-Adds env q, calls.sets_sources)

  rate_oracle-Adds :
      (config : ICommonConfiguration) (rates : Object IMarketRates) (tokens : Object String)
      (admin : Option String) (verify : Bool)
      → Adds (allows q) (rate_oracle env config rates tokens admin verify)
  unfolding rate_oracle deploy_lending_rate_oracle
  rate_oracle-Adds config rates tokens admin verify =
      Adds-elim_bool
        (not_falsy_or_zero_address env
          (get_param_per_network env config.lending_rate_oracle env.network_name))
        _ _ (search (getter_rules, allows-Requests))
        (search
          (adds_rules, deploy_and_save-Adds env q, set_initial_market_rates-Adds env calls.rates))

  pub deploy_oracles-Adds :
      (pool : ConfigNames) (verify : Bool) → Adds (allows q) (deploy_oracles env pool verify)
  unfolding deploy_oracles
  deploy_oracles-Adds pool verify =
      search
        (
          adds_rules,
          getter_rules,
          allows-Requests,
          load_pool_config-Adds env,
          get_lending_rate_oracles-Adds env,
          get_genesis_pool_admin-Adds env (allows-Requests q),
          pairs_or_throw-Adds,
          price_oracle-Adds,
          rate_oracle-Adds,
          send_and_wait-Adds env q,
          calls.sets_prices,
          calls.sets_rates,
        )
        depth 20 fits 3000
