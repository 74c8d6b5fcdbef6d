-- ===== src/Tasks/NewAsset.antt =====
-- tasks/helpers/deploy-new-asset.ts: the deployment of the tokens and of the strategy of an asset
-- that the Avalanche market is about to list.
pub mod Symbols
pub mod Adds
use vinium_lending.Prelude.{
  String, Bool, true, false, ◌&&◌, ◌||◌, Option, none, some, List, [], ◌∷◌, if◌then◌else◌, ◌==◌,
  truthy, lookup, includes, is_text, keys, cat, Object,
}
use vinium_lending.Effects.{
  Env, M, pure, throw, or_throw, type_error, missing_deployment_script, wrong_reserve_asset_setup,
  ask, ◌>>=◌, ◌>>◌,
}
use vinium_lending.Types.Config.{IReserveParams}
use vinium_lending.Types.ContractId.{id_value, vi_token, delegation_aware_vi_token}
use vinium_lending.Markets.{
  avalanche_config, strategy_savax, strategy_usdc, strategy_usdt, strategy_dai, strategy_weth,
  strategy_btcb, strategy_wbtc, strategy_grape, strategy_wavax, strategy_vinium, strategy_mim,
  strategy_wine, strategy_mgrapemin,
}
use vinium_lending.ContractsHelpers.{zero_address}
use vinium_lending.ContractsGetters.{get_lending_pool_addresses_provider}
use vinium_lending.ContractsDeployments.{
  deploy_default_reserve_interest_rate_strategy, deploy_stable_vd_token, deploy_variable_vd_token,
}
use vinium_lending.ContractAddress.{choose_vi_token_deployment}

abbrev pub lending_pool_address_provider : Object String
lending_pool_address_provider =
    ("main", "0xb53c1a33016b2dc2ff3653530bff1848a515c8c5")
    ∷ ("kovan", "0x652B2937Efd0B5beA1c8d54293FC1289672AFC6b")
    ∷ []

-- The constants that markets/avalanche/reservesConfigs.ts exports.
abbrev pub reserve_configs : Env → Object IReserveParams
reserve_configs env =
    ("strategySAVAX", strategy_savax env.decimals)
    ∷ ("strategyUSDC", strategy_usdc env.decimals)
    ∷ ("strategyUSDT", strategy_usdt env.decimals)
    ∷ ("strategyDAI", strategy_dai env.decimals)
    ∷ ("strategyWETH", strategy_weth env.decimals)
    ∷ ("strategyBTCB", strategy_btcb env.decimals)
    ∷ ("strategyWBTC", strategy_wbtc env.decimals)
    ∷ ("strategyGRAPE", strategy_grape env.decimals)
    ∷ ("strategyWAVAX", strategy_wavax env.decimals)
    ∷ ("strategyVINIUM", strategy_vinium env.decimals)
    ∷ ("strategyMIM", strategy_mim env.decimals)
    ∷ ("strategyWINE", strategy_wine env.decimals)
    ∷ ("strategyMGRAPEMIN", strategy_mgrapemin env.decimals)
    ∷ []

-- Which of these constants `AvalancheConfig.ReservesConfig` refers to: `===` on objects compares
-- them by identity.
abbrev pub reserve_config_names : Object String
reserve_config_names =
    ("SAVAX", "strategySAVAX")
    ∷ ("USDC", "strategyUSDC")
    ∷ ("USDT", "strategyUSDT")
    ∷ ("DAI", "strategyDAI")
    ∷ ("WETH", "strategyWETH")
    ∷ ("BTCB", "strategyBTCB")
    ∷ ("GRAPE", "strategyGRAPE")
    ∷ ("WAVAX", "strategyWAVAX")
    ∷ []

abbrev pub is_some : Option String → Bool
is_some none = false
is_some (some _) = true

module _ (env : Env) where
  -- The two tests after the first one; the property of `undefined` throws.
  pub is_listed_symbol : Option (Object String) → String → M Bool
  is_listed_symbol none symbol = throw type_error
  is_listed_symbol (some assets) symbol = pure (
      is_some (truthy (lookup symbol assets))
      && is_text (lookup symbol reserve_config_names) (cat "strategy" symbol))

  unfoldable pub is_symbol_valid : (symbol network : String) → M Bool
  unfolding is_listed_symbol
  is_symbol_valid symbol network =
      if includes (keys (reserve_configs env)) (cat "strategy" symbol)
      then is_listed_symbol (lookup network (avalanche_config env.decimals).reserve_assets) symbol
      else pure false

  -- The choice of `chooseViTokenDeployment`, before its script is run.
  pub check_vi_token_deployment : String → M (Unit {0})
  check_vi_token_deployment id =
      if id == id_value vi_token || id == id_value delegation_aware_vi_token
      then pure tt
      else throw (missing_deployment_script id)

  -- What follows the test of the symbol.
  pub new_asset_steps : (symbol : String) → Bool → M (Unit {0})
  unfolding check_vi_token_deployment
  new_asset_steps symbol verify = do
    let config = avalanche_config env.decimals
    params ← or_throw (lookup (cat "strategy" symbol) (reserve_configs env)) type_error
    assets ← or_throw (lookup env.network_name config.reserve_assets) type_error
    asset ← or_throw (lookup symbol assets) type_error
    check_vi_token_deployment params.vi_token_impl
    provider ←
        get_lending_pool_addresses_provider env
          (lookup env.network_name lending_pool_address_provider)
    pool_address ← ask env (λ h. env.view_text h provider.address "getLendingPool" [])
    choose_vi_token_deployment env params.vi_token_impl verify
    deploy_stable_vd_token env pool_address asset zero_address
        (cat config.stable_vd_token_name_prefix (cat " " symbol)) (cat "stableVd" symbol) verify
    deploy_variable_vd_token env pool_address asset zero_address
        (cat config.variable_vd_token_name_prefix (cat " " symbol)) (cat "variableVd" symbol) verify
    deploy_default_reserve_interest_rate_strategy env provider.address
        params.strategy.optimal_utilization_rate params.strategy.base_variable_borrow_rate
        params.strategy.variable_rate_slope1 params.strategy.variable_rate_slope2
        params.strategy.stable_rate_slope1 params.strategy.stable_rate_slope2 verify
    pure tt

  unfoldable pub deploy_new_asset : (symbol : String) → Bool → M (Unit {0})
  unfolding is_symbol_valid new_asset_steps
  deploy_new_asset symbol verify = do
    valid ← is_symbol_valid symbol env.network_name
    if valid
        then new_asset_steps symbol verify
        else throw (wrong_reserve_asset_setup symbol env.network_name)
