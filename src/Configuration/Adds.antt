-- ===== src/Configuration/Adds.antt =====
-- What the reads of the configuration add to the history.
use vinium_lending.Prelude.{
  String, Bool, false, ◌||◌, ◌==◌, Option, none, some, [], ◌∷◌, ℕ, truthy, contains_text, Object,
}
use vinium_lending.Effects.{Env, Call, Action}
use vinium_lending.Effects.Adds.{
  Adds, allows, adds_rules, Adds-bind, Adds-if, Adds-elim_option, Adds-pure, Adds-throw,
}
use vinium_lending.Types.Config.{IParamsPerNetwork, IMarketRates, ICommonConfiguration}
use vinium_lending.Signers.Adds.{Requests, get_ethers_signers-Adds}
use vinium_lending.ContractsHelpers.{get_param_per_network}
use vinium_lending.ContractsDeployments.{deploy_weth_mocked}
use vinium_lending.ContractsDeployments.Adds.{deploy_and_save-Adds}
use vinium_lending.Configuration.{
  ConfigNames, load_pool_config, current_network, admin_or_account, get_genesis_pool_admin,
  get_emergency_admin, weth_or_mock, get_weth_address, get_wrapped_native_token_address,
  filter_rates, get_lending_rate_oracles, get_quote_currency,
}

pub load_pool_config-Adds :
    (env : Env) {p : Action → Bool} (pool : ConfigNames) → Adds p (load_pool_config env pool)
unfolding load_pool_config
load_pool_config-Adds env ConfigNames.avalanche = Adds-pure _
load_pool_config-Adds env ConfigNames.commons = Adds-pure _
load_pool_config-Adds env ConfigNames.vinium = Adds-throw _
load_pool_config-Adds env ConfigNames.matic = Adds-throw _
load_pool_config-Adds env ConfigNames.amm = Adds-throw _

-- The mock is deployed and recorded.
pub deploy_weth_mocked-Adds :
    (env : Env) (q : Call → Bool) → Adds (allows q) (deploy_weth_mocked env false)
unfolding deploy_weth_mocked
deploy_weth_mocked-Adds env q = deploy_and_save-Adds env q _ _ _ false

module _ (env : Env) {p : Action → Bool} (requests : Requests p) where
  admin_or_account-Adds :
      (admins : IParamsPerNetwork String) (index : ℕ) → Adds p (admin_or_account env admins index)
  unfolding admin_or_account
  admin_or_account-Adds admins index =
      Adds-elim_option (truthy (get_param_per_network env admins (current_network env))) _ _
        (search (adds_rules, get_ethers_signers-Adds env requests)) λ target. Adds-pure _

  pub get_genesis_pool_admin-Adds :
      (config : ICommonConfiguration) → Adds p (get_genesis_pool_admin env config)
  unfolding get_genesis_pool_admin
  get_genesis_pool_admin-Adds config = admin_or_account-Adds _ _

  pub get_emergency_admin-Adds :
      (config : ICommonConfiguration) → Adds p (get_emergency_admin env config)
  unfolding get_emergency_admin
  get_emergency_admin-Adds config = admin_or_account-Adds _ _

module _ (env : Env) {p : Action → Bool} (mocks : Adds p (deploy_weth_mocked env false)) where
  weth_or_mock-Adds :
      (param : IParamsPerNetwork String) (network : String)
      → Adds p (weth_or_mock env param network)
  unfolding weth_or_mock
  weth_or_mock-Adds param network =
      Adds-elim_option (truthy (get_param_per_network env param network)) _ _
        (Adds-if (contains_text network "main") _ _ (Adds-throw _)
          (Adds-bind _ _ mocks λ weth. Adds-pure weth.address))
        λ address. Adds-pure _

  get_weth_address-Adds : (config : ICommonConfiguration) → Adds p (get_weth_address env config)
  unfolding get_weth_address
  get_weth_address-Adds config = weth_or_mock-Adds _ _

  pub get_wrapped_native_token_address-Adds :
      (config : ICommonConfiguration) → Adds p (get_wrapped_native_token_address env config)
  unfolding get_wrapped_native_token_address
  get_wrapped_native_token_address-Adds config = weth_or_mock-Adds _ _

  pub get_quote_currency-Adds :
      (config : ICommonConfiguration) → Adds p (get_quote_currency env config)
  unfolding get_quote_currency
  get_quote_currency-Adds config =
      Adds-if (config.oracle_quote_currency == "ETH" || config.oracle_quote_currency == "WETH") _ _
        (get_weth_address-Adds config)
        (Adds-if (config.oracle_quote_currency == "USD") _ _ (Adds-pure _) (Adds-throw _))

module _ (env : Env) {p : Action → Bool} where
  filter_rates-Adds :
      (rates : Object IMarketRates) (assets : Option (Object String))
      → Adds p (filter_rates env rates assets)
  unfolding filter_rates
  filter_rates-Adds rates (some assets) = Adds-pure _
  filter_rates-Adds [] none = Adds-pure _
  filter_rates-Adds (_ ∷ _) none = Adds-throw _

  pub get_lending_rate_oracles-Adds :
      (config : ICommonConfiguration) → Adds p (get_lending_rate_oracles env config)
  unfolding get_lending_rate_oracles
  get_lending_rate_oracles-Adds config = filter_rates-Adds _ _
