-- ===== src/Tests/Oracles.antt =====
-- The theorems on the oracles at concrete inputs.
use vinium_lending.Prelude.{String, ◌≡◌, refl, none, [], ◌∷◌, Object}
use mathlib.Core.List.{Memᴰ}
use vinium_lending.Effects.{
  History, stored, sent, transfer_ownership, set_oracle_ownership, ok, err, type_error, ◌>>=◌,
}
use vinium_lending.Effects.Laws.{log_all}
use vinium_lending.Types.Config.{IMarketRates, ICommonConfiguration}
use vinium_lending.MiscUtils.{chunk}
use vinium_lending.ContractsHelpers.{Contract}
use vinium_lending.ContractsGetters.{get_stable_and_variable_tokens_helper}
use vinium_lending.Markets.{avalanche_config}
use vinium_lending.Configuration.{current_network, get_lending_rate_oracles}
use vinium_lending.Configuration.Choice.{get_lending_rate_oracles_lem}
use vinium_lending.OraclesHelpers.{rates_chunks, set_initial_market_rates_in_rates_oracle_by_helper}
use vinium_lending.OraclesHelpers.Rates.{
  rates_call, set_initial_market_rates_live, set_initial_market_rates_unlisted,
}
use vinium_lending.OraclesHelpers.Listed.{set_market_rates_of_assets}
use vinium_lending.Types.ContractId.{id_value}
use vinium_lending.Signers.{get_first_signer}
use vinium_lending.Tests.World.{calm, calm-IsLive}

abbrev before : History
before =
    stored "StableAndVariableTokensHelper" "avalanche"
      (record { address = "0x51"; deployer = none })
    ∷ []

abbrev helper : Contract
helper = record { factory = "StableAndVariableTokensHelper"; address = "0x51"; signer = "0xa1" }

abbrev oracle : Contract
oracle = record { factory = "LendingRateOracle"; address = "0x52"; signer = "0xa1" }

abbrev market_rates : Object IMarketRates
market_rates =
    ("DAI", record { borrow_rate = "39" }) ∷ ("WAVAX", record { borrow_rate = "50" }) ∷ []

abbrev assets : Object String
assets = ("WAVAX", "0x61") ∷ ("DAI", "0x62") ∷ []

at_helper : get_stable_and_variable_tokens_helper calm none before ≡ (ok helper, before)
unfolding get_stable_and_variable_tokens_helper id_value get_first_signer
at_helper = refl

set_initial_market_rates_live_example :
    set_initial_market_rates_in_rates_oracle_by_helper calm market_rates assets oracle "0xad" before
    ≡ (
      ok tt,
      sent "0xa1" "0x51" (set_oracle_ownership "0x52" "0xad")
          ∷ log_all
              (rates_call helper oracle)
              (chunk (("0x62", "39") ∷ ("0x61", "50") ∷ []) rates_chunks)
              (sent "0xa1" "0x52" (transfer_ownership "0x51") ∷ before),
    )
set_initial_market_rates_live_example =
    set_initial_market_rates_live calm market_rates assets oracle helper "0xad" before at_helper
      calm-IsLive (("0x62", refl), (("0x61", refl), tt))

set_initial_market_rates_unlisted_example :
    set_initial_market_rates_in_rates_oracle_by_helper calm market_rates
      (("DAI", "0x62") ∷ [])
      oracle
      "0xad"
      before
    ≡ (err type_error, before)
set_initial_market_rates_unlisted_example =
    set_initial_market_rates_unlisted calm market_rates (("DAI", "0x62") ∷ []) oracle helper "0xad"
      before at_helper "WAVAX" (record { borrow_rate = "50" }) refl (Memᴰ.tail (Memᴰ.head refl))

abbrev config : ICommonConfiguration
config = record (avalanche_config calm.decimals) {
  reserve_assets = ("avalanche", assets) ∷ [];
  lending_rate_oracle_rates_common = ("VINIUM", record { borrow_rate = "30" }) ∷ market_rates;
}

get_lending_rate_oracles_lem_example :
    get_lending_rate_oracles calm config [] ≡ (ok market_rates, [])
unfolding current_network
get_lending_rate_oracles_lem_example =
    get_lending_rate_oracles_lem calm config assets [] refl (refl, (refl, (refl, tt)))

set_market_rates_of_assets_example :
    (get_lending_rate_oracles calm config >>= λ rates.
    set_initial_market_rates_in_rates_oracle_by_helper calm rates assets oracle "0xad")
      before
    ≡ (
      ok tt,
      sent "0xa1" "0x51" (set_oracle_ownership "0x52" "0xad")
          ∷ log_all
              (rates_call helper oracle)
              (chunk (("0x62", "39") ∷ ("0x61", "50") ∷ []) rates_chunks)
              (sent "0xa1" "0x52" (transfer_ownership "0x51") ∷ before),
    )
unfolding current_network
set_market_rates_of_assets_example =
    set_market_rates_of_assets calm config assets oracle helper "0xad" before calm-IsLive refl
      (refl, (refl, (refl, tt))) at_helper
