-- ===== src/Types/Config.antt =====
-- The configuration types of helpers/types.ts. Numbers are decimal texts there. A parameter per
-- network is the object of the networks that the market names; `undefined` entries are left out.
use vinium_lending.Prelude.{ℕ, String, Bool, Option, Object}

-- `iParamsPerNetwork<T>`
abbrev pub IParamsPerNetwork {ℓ} : Type ℓ → Type ℓ
IParamsPerNetwork T = Object T

pub record IInterestRateStrategyParams : Type 0 where
  pub name : String
  pub optimal_utilization_rate : String
  pub base_variable_borrow_rate : String
  pub variable_rate_slope1 : String
  pub variable_rate_slope2 : String
  pub stable_rate_slope1 : String
  pub stable_rate_slope2 : String

-- `IReserveParams` with the fields of `IReserveBorrowParams` and `IReserveCollateralParams`.
pub record IReserveParams : Type 0 where
  pub vi_token_impl : String
  pub reserve_factor : String
  pub strategy : IInterestRateStrategyParams
  pub borrowing_enabled : Bool
  pub stable_borrow_rate_enabled : Bool
  pub reserve_decimals : String
  pub base_ltv_as_collateral : String
  pub liquidation_threshold : String
  pub liquidation_bonus : String

pub record IMarketRates : Type 0 where
  pub borrow_rate : String

pub record IProtocolGlobalConfig : Type 0 where
  pub token_distributor_percentage_base : String
  pub mock_usd_price_in_wei : String
  pub usd_address : String
  pub nil_address : String
  pub one_address : String
  pub vinium_referral : String

-- `ICommonConfiguration` with the fields of `IBaseConfiguration`; `Mocks` is the object
-- `AllAssetsInitialPrices` inside it.
pub record ICommonConfiguration : Type 0 where
  pub market_id : String
  pub vi_token_name_prefix : String
  pub stable_vd_token_name_prefix : String
  pub variable_vd_token_name_prefix : String
  pub symbol_prefix : String
  pub provider_id : ℕ
  pub protocol_global_params : IProtocolGlobalConfig
  pub provider_registry : IParamsPerNetwork String
  pub provider_registry_owner : IParamsPerNetwork String
  pub lending_pool_collateral_manager : IParamsPerNetwork String
  pub lending_pool_configurator : IParamsPerNetwork String
  pub lending_pool : IParamsPerNetwork String
  pub lending_rate_oracle_rates_common : Object IMarketRates
  pub lending_rate_oracle : IParamsPerNetwork String
  pub token_distributor : IParamsPerNetwork String
  pub vinium_oracle : IParamsPerNetwork String
  pub fallback_oracle : IParamsPerNetwork String
  pub chainlink_aggregator : IParamsPerNetwork (Object String)
  pub pool_admin : IParamsPerNetwork String
  pub pool_admin_index : ℕ
  pub emergency_admin : IParamsPerNetwork String
  pub emergency_admin_index : ℕ
  pub vi_token_domain_separator : IParamsPerNetwork String
  pub weth : IParamsPerNetwork String
  pub wrapped_native_token : IParamsPerNetwork String
  pub weth_gateway : IParamsPerNetwork String
  pub reserve_factor_treasury_address : IParamsPerNetwork String
  pub incentives_controller : IParamsPerNetwork String
  pub stable_vd_token_implementation : Option (IParamsPerNetwork String)
  pub variable_vd_token_implementation : Option (IParamsPerNetwork String)
  pub reserve_assets : IParamsPerNetwork (Object String)
  pub oracle_quote_currency : String
  pub oracle_quote_unit : String
  pub reserves_config : Object IReserveParams
  pub mocks : Object String
