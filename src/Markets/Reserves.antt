-- ===== src/Markets/Reserves.antt =====
-- markets/avalanche/reservesConfigs.ts and rateStrategies.ts: the parameters of the reserves.
use vinium_lending.Prelude.{true, false}
use vinium_lending.Effects.{Decimals}
use vinium_lending.Types.ContractId.{id_value, vi_token}
use vinium_lending.Types.Config.{IInterestRateStrategyParams, IReserveParams}

module _ (d : Decimals) where
  abbrev pub rate_strategy_volatile_one : IInterestRateStrategyParams
  rate_strategy_volatile_one = record {
    name = "rateStrategyVolatileOne";
    optimal_utilization_rate = d.ray_times "0.45";
    base_variable_borrow_rate = d.ray_times "0";
    variable_rate_slope1 = d.ray_times "0.07";
    variable_rate_slope2 = d.ray_times "3";
    stable_rate_slope1 = "0";
    stable_rate_slope2 = "0";
  }

  abbrev pub rate_strategy_stable_one : IInterestRateStrategyParams
  rate_strategy_stable_one = record {
    name = "rateStrategyStableOne";
    optimal_utilization_rate = d.ray_times "0.8";
    base_variable_borrow_rate = d.ray_times "0";
    variable_rate_slope1 = d.ray_times "0.04";
    variable_rate_slope2 = d.ray_times "0.75";
    stable_rate_slope1 = d.ray_times "0.02";
    stable_rate_slope2 = d.ray_times "0.75";
  }

  abbrev pub strategy_savax : IReserveParams
  strategy_savax = record {
    strategy = rate_strategy_volatile_one;
    base_ltv_as_collateral = "5000";
    liquidation_threshold = "6500";
    liquidation_bonus = "11000";
    borrowing_enabled = true;
    stable_borrow_rate_enabled = false;
    reserve_decimals = "18";
    vi_token_impl = id_value vi_token;
    reserve_factor = "1500";
  }

  abbrev pub strategy_usdc : IReserveParams
  strategy_usdc = record {
    strategy = rate_strategy_stable_one;
    base_ltv_as_collateral = "7500";
    liquidation_threshold = "8000";
    liquidation_bonus = "10500";
    borrowing_enabled = true;
    stable_borrow_rate_enabled = false;
    reserve_decimals = "6";
    vi_token_impl = id_value vi_token;
    reserve_factor = "1000";
  }

  abbrev pub strategy_usdt : IReserveParams
  strategy_usdt = record {
    strategy = rate_strategy_stable_one;
    base_ltv_as_collateral = "0";
    liquidation_threshold = "0";
    liquidation_bonus = "0";
    borrowing_enabled = true;
    stable_borrow_rate_enabled = false;
    reserve_decimals = "6";
    vi_token_impl = id_value vi_token;
    reserve_factor = "1000";
  }

  abbrev pub strategy_dai : IReserveParams
  strategy_dai = record {
    strategy = rate_strategy_stable_one;
    base_ltv_as_collateral = "7500";
    liquidation_threshold = "8000";
    liquidation_bonus = "10500";
    borrowing_enabled = true;
    stable_borrow_rate_enabled = false;
    reserve_decimals = "18";
    vi_token_impl = id_value vi_token;
    reserve_factor = "1000";
  }

  abbrev pub strategy_weth : IReserveParams
  strategy_weth = record {
    strategy = rate_strategy_volatile_one;
    base_ltv_as_collateral = "8000";
    liquidation_threshold = "8250";
    liquidation_bonus = "10500";
    borrowing_enabled = true;
    stable_borrow_rate_enabled = false;
    reserve_decimals = "18";
    vi_token_impl = id_value vi_token;
    reserve_factor = "1000";
  }

  abbrev pub strategy_btcb : IReserveParams
  strategy_btcb = record {
    strategy = rate_strategy_volatile_one;
    base_ltv_as_collateral = "6000";
    liquidation_threshold = "7500";
    liquidation_bonus = "10500";
    borrowing_enabled = true;
    stable_borrow_rate_enabled = false;
    reserve_decimals = "8";
    vi_token_impl = id_value vi_token;
    reserve_factor = "1000";
  }

  abbrev pub strategy_wbtc : IReserveParams
  strategy_wbtc = record {
    strategy = rate_strategy_volatile_one;
    base_ltv_as_collateral = "6000";
    liquidation_threshold = "7500";
    liquidation_bonus = "10500";
    borrowing_enabled = true;
    stable_borrow_rate_enabled = false;
    reserve_decimals = "8";
    vi_token_impl = id_value vi_token;
    reserve_factor = "1000";
  }

  abbrev pub strategy_grape : IReserveParams
  strategy_grape = record {
    strategy = rate_strategy_volatile_one;
    base_ltv_as_collateral = "5000";
    liquidation_threshold = "6500";
    liquidation_bonus = "11000";
    borrowing_enabled = false;
    stable_borrow_rate_enabled = false;
    reserve_decimals = "18";
    vi_token_impl = id_value vi_token;
    reserve_factor = "1500";
  }

  abbrev pub strategy_wavax : IReserveParams
  strategy_wavax = record {
    strategy = rate_strategy_volatile_one;
    base_ltv_as_collateral = "5000";
    liquidation_threshold = "6500";
    liquidation_bonus = "11000";
    borrowing_enabled = true;
    stable_borrow_rate_enabled = false;
    reserve_decimals = "18";
    vi_token_impl = id_value vi_token;
    reserve_factor = "1500";
  }

  abbrev pub strategy_vinium : IReserveParams
  strategy_vinium = record {
    strategy = rate_strategy_volatile_one;
    base_ltv_as_collateral = "4000";
    liquidation_threshold = "6500";
    liquidation_bonus = "11000";
    borrowing_enabled = false;
    stable_borrow_rate_enabled = false;
    reserve_decimals = "18";
    vi_token_impl = id_value vi_token;
    reserve_factor = "2000";
  }

  abbrev pub strategy_mim : IReserveParams
  strategy_mim = record {
    strategy = rate_strategy_volatile_one;
    base_ltv_as_collateral = "4000";
    liquidation_threshold = "6500";
    liquidation_bonus = "11000";
    borrowing_enabled = true;
    stable_borrow_rate_enabled = false;
    reserve_decimals = "18";
    vi_token_impl = id_value vi_token;
    reserve_factor = "2000";
  }

  abbrev pub strategy_wine : IReserveParams
  strategy_wine = record {
    strategy = rate_strategy_volatile_one;
    base_ltv_as_collateral = "4000";
    liquidation_threshold = "6500";
    liquidation_bonus = "11000";
    borrowing_enabled = false;
    stable_borrow_rate_enabled = false;
    reserve_decimals = "18";
    vi_token_impl = id_value vi_token;
    reserve_factor = "2000";
  }

  abbrev pub strategy_mgrapemin : IReserveParams
  strategy_mgrapemin = record {
    strategy = rate_strategy_volatile_one;
    base_ltv_as_collateral = "4000";
    liquidation_threshold = "6500";
    liquidation_bonus = "11000";
    borrowing_enabled = false;
    stable_borrow_rate_enabled = false;
    reserve_decimals = "18";
    vi_token_impl = id_value vi_token;
    reserve_factor = "2000";
  }
