-- ===== src/Configuration/Choice.antt =====
-- Which rates `getLendingRateOracles` keeps.
use vinium_lending.Prelude.{String, ◌≡◌, refl, keys, lookup, includes, Object, IsObject, some}
use vinium_lending.Effects.{Env, History, ok}
use vinium_lending.Types.Config.{ICommonConfiguration}
use vinium_lending.MiscUtils.Filter.{filter_entries, filter_map_by-eq-filter_entries}
use vinium_lending.Configuration.{current_network, filter_rates, get_lending_rate_oracles}

-- On a network for which the market lists assets, the rates of the configuration are kept exactly
-- for the symbols among these assets, in their order and with their values; nothing is sent.
pub get_lending_rate_oracles_lem :
    (env : Env) (config : ICommonConfiguration) (assets : Object String) (h : History)
    → lookup (current_network env) config.reserve_assets ≡ some assets
    → IsObject config.lending_rate_oracle_rates_common
    → get_lending_rate_oracles env config h
      ≡ (ok (filter_entries (includes (keys assets)) config.lending_rate_oracle_rates_common), h)
unfolding get_lending_rate_oracles filter_rates
get_lending_rate_oracles_lem env config assets h listed object =
    rw
      (
        listed,
        filter_map_by-eq-filter_entries config.lending_rate_oracle_rates_common
            (includes (keys assets)) object,
      )
      refl
