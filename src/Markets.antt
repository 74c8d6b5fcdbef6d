-- ===== src/Markets.antt =====
-- markets/avalanche/commons.ts and index.ts: the configurations of the two pools.
mod Reserves
mod Prices
unfoldable pub use Reserves.*
unfoldable pub use Prices.*
use vinium_lending.Prelude.{ℕ, String, Option, none, List, [], ◌∷◌, map, Object}
use vinium_lending.Effects.{Decimals}
use vinium_lending.Types.Config.{
  IMarketRates, IProtocolGlobalConfig, ICommonConfiguration, IParamsPerNetwork,
}
use vinium_lending.ContractsHelpers.{zero_address}

abbrev pub protocol_global_params : IProtocolGlobalConfig
protocol_global_params = record {
  token_distributor_percentage_base = "10000";
  mock_usd_price_in_wei = "5848466240000000";
  usd_address = "0x10F7Fc1F91Ba351f9C629c5947AD69bD03C05b96";
  nil_address = "0x0000000000000000000000000000000000000000";
  one_address = "0x0000000000000000000000000000000000000001";
  vinium_referral = "0";
}

abbrev pub chainlink_aggregator : IParamsPerNetwork (Object String)
chainlink_aggregator =
    (
      "avalanche",
      ("SAVAX", "0x49bDF0321C4Bf17c9297a6B266F55F3AF3cb0aDE")
          ∷ ("USDC", "0xF096872672F44d6EBA71458D74fe67F9a77a23B9")
          ∷ ("USDT", "0xEBE676ee90Fe1112671f19b6B7459bC678B67e8a")
          ∷ ("DAI", "0x51D7180edA2260cc4F6e4EebB82FEF5c3c2B8300")
          ∷ ("WETH", "0x976B3D034E162d8bD72D6b9C989d545b839003b0")
          ∷ ("BTCB", "0x2779D32d5166BAaa2B2b658333bA7e6Ec0C65743")
          ∷ ("GRAPE", "0xad42d3f890fe384f888d3d1c849ed12e9b8372c8")
          ∷ ("WAVAX", "0x0A77230d17318075983913bC2145DB16C7366156")
          ∷ [],
    )
    ∷ (
      "fuji",
      ("WETH", "0x86d67c3D38D2bCeE722E601025C25a575021c6EA")
          ∷ ("USDT", "0x7898AcCC83587C3C55116c5230C17a6Cd9C71bad")
          ∷ ("WBTC", "0x31CF013A08c6Ac228C94551d535d5BAfE19c602a")
          ∷ ("WAVAX", "0x5498BB86BC934c8D34FDA08E81D444153d0D06aD")
          ∷ ("USD", "0x86d67c3D38D2bCeE722E601025C25a575021c6EA")
          ∷ [],
    )
    ∷ []

module _ (d : Decimals) where
  abbrev pub lending_rate_oracle_rates_common : Object IMarketRates
  lending_rate_oracle_rates_common =
      map (λ (e : String × String). (e.0, record { borrow_rate = d.ray_times e.1 }))
        (("WETH", "0.03")
          ∷ ("DAI", "0.039")
          ∷ ("USDC", "0.039")
          ∷ ("USDT", "0.035")
          ∷ ("VINIUM", "0.03")
          ∷ ("WBTC", "0.03")
          ∷ ("WAVAX", "0.05")
          ∷ [])

  abbrev pub commons_config : ICommonConfiguration
  commons_config = record {
    market_id = "Commons";
    vi_token_name_prefix = "Vinium Avalanche Market";
    stable_vd_token_name_prefix = "Vinium Avalanche Market stable debt";
    variable_vd_token_name_prefix = "Vinium Avalanche Market variable debt";
    symbol_prefix = "v";
    oracle_quote_currency = "USD";
    provider_id = 0;
    oracle_quote_unit = d.one_usd;
    pool_admin_index = 0;
    emergency_admin_index = 0;
    protocol_global_params = protocol_global_params;
    lending_rate_oracle_rates_common = lending_rate_oracle_rates_common;
    chainlink_aggregator = chainlink_aggregator;
    mocks = mock_chainlink_aggregators_prices d;
    stable_vd_token_implementation = none;
    variable_vd_token_implementation = none;
    reserve_assets = ("avalanche", []) ∷ ("fuji", []) ∷ [];
    reserves_config = [];
    provider_registry = ("avalanche", "") ∷ ("fuji", "") ∷ [];
    provider_registry_owner = ("avalanche", "") ∷ ("fuji", "") ∷ [];
    lending_pool_collateral_manager = ("avalanche", "") ∷ ("fuji", "") ∷ [];
    lending_pool_configurator = ("avalanche", "") ∷ ("fuji", "") ∷ [];
    lending_pool = ("avalanche", "") ∷ ("fuji", "") ∷ [];
    lending_rate_oracle =
        ("avalanche", "0xCA3eb6E8c67a2B00C5B35E0Fd469d50712017279") ∷ ("fuji", "") ∷ [];
    token_distributor = ("avalanche", "") ∷ ("fuji", "") ∷ [];
    vinium_oracle = ("avalanche", "0xFC5C922b6A0137FD33E3604663aB468D15C9d4f5") ∷ ("fuji", "") ∷ [];
    fallback_oracle = ("avalanche", zero_address) ∷ ("fuji", zero_address) ∷ [];
    pool_admin = [];
    emergency_admin = [];
    vi_token_domain_separator = ("avalanche", "") ∷ ("fuji", "") ∷ [];
    weth = ("avalanche", "") ∷ ("fuji", "") ∷ [];
    wrapped_native_token =
        ("avalanche", "0xB31f66AA3C1e785363F0875A1B74E27b85FD66c7")
        ∷ ("fuji", "0xd00ae08403B9bbb9124bB305C09058E32C39A48c")
        ∷ [];
    weth_gateway = ("avalanche", "") ∷ ("fuji", "") ∷ [];
    reserve_factor_treasury_address =
        ("avalanche", "0xEB755b81A786832705a3c0658127216eD36fE898")
        ∷ ("fuji", "0xB45F5C501A22288dfdb897e5f73E189597e09288")
        ∷ [];
    incentives_controller =
        ("avalanche", "0x4a40Cf33cc1D38fc1C4668F398eE17133f5c2636")
        ∷ ("fuji", "0xa1EF206fb9a8D8186157FC817fCddcC47727ED55")
        ∷ [];
  }

  abbrev pub avalanche_config : ICommonConfiguration
  avalanche_config = record commons_config {
    market_id = "Avalanche market";
    provider_id = 4;
    reserves_config =
        ("SAVAX", strategy_savax d)
        ∷ ("USDC", strategy_usdc d)
        ∷ ("USDT", strategy_usdt d)
        ∷ ("DAI", strategy_dai d)
        ∷ ("WETH", strategy_weth d)
        ∷ ("BTCB", strategy_btcb d)
        ∷ ("GRAPE", strategy_grape d)
        ∷ ("WAVAX", strategy_wavax d)
        ∷ [];
    reserve_assets =
        (
          "avalanche",
          ("SAVAX", "0x2b2C81e08f1Af8835a78Bb2A90AE924ACE0eA4bE")
              ∷ ("USDC", "0xB97EF9Ef8734C71904D8002F8b6Bc66Dd9c48a6E")
              ∷ ("USDT", "0x9702230A8Ea53601f5cD2dc00fDBc13d4dF4A8c7")
              ∷ ("DAI", "0xd586e7f844cea2f87f50152665bcbc2c279d8d70")
              ∷ ("WETH", "0x49d5c2bdffac6ce2bfdb6640f4f80f226bc10bab")
              ∷ ("BTCB", "0x152b9d0FdC40C096757F570A51E494bd4b943E50")
              ∷ ("GRAPE", "0x5541D83EFaD1f281571B343977648B75d95cdAC2")
              ∷ ("WAVAX", "0xB31f66AA3C1e785363F0875A1B74E27b85FD66c7")
              ∷ [],
        )
        ∷ (
          "fuji",
          ("WETH", "0x9668f5f55f2712Dd2dfa316256609b516292D554")
              ∷ ("USDT", "0x02823f9B469960Bb3b1de0B3746D4b95B7E35543")
              ∷ ("WBTC", "0x9C1DCacB57ADa1E9e2D3a8280B7cfC7EB936186F")
              ∷ ("WAVAX", "0xd00ae08403B9bbb9124bB305C09058E32C39A48c")
              ∷ [],
        )
        ∷ [];
  }
