-- ===== src/OraclesHelpers/Listed.antt =====
-- `getLendingRateOracles` and `setInitialMarketRatesInRatesOracleByHelper` in sequence, as
-- tasks/full/3_oracles.ts calls them.
use vinium_lending.Prelude.{
  String, true, ◌≡◌, refl, ap, ◌∙◌, none, some, [], ◌∷◌, map, lookup, keys, includes, Object,
  IsObject, All, keep_some, ◌==◌, arith, Bool-cases, inl, inr,
}
use vinium_lending.Effects.{
  Env, IsLive, transfer_ownership, set_oracle_ownership, sent, History, ok, resume, ◌>>=◌,
}
use vinium_lending.Effects.Laws.{log_all}
use vinium_lending.Types.Config.{IMarketRates, ICommonConfiguration}
use vinium_lending.MiscUtils.{chunk}
use vinium_lending.MiscUtils.Filter.{filter_entries}
use vinium_lending.ContractsHelpers.{Contract}
use vinium_lending.ContractsGetters.{get_stable_and_variable_tokens_helper}
use vinium_lending.Configuration.{current_network, get_lending_rate_oracles}
use vinium_lending.Configuration.Choice.{get_lending_rate_oracles_lem}
use vinium_lending.OraclesHelpers.{rates_chunks, set_initial_market_rates_in_rates_oracle_by_helper}
use vinium_lending.OraclesHelpers.Rates.{
  IsListed, row_of, rates_call, set_initial_market_rates_live,
}

-- A key of an object has a value.
lookup_of_includes :
    (k : String) (o : Object String)
    → includes (keys o) k ≡ true
    → (v : String) × (lookup k o ≡ some v)
lookup_of_includes k [] h = ground arith
lookup_of_includes k ((j, v) ∷ o) h = elim (Bool-cases (j == k)) [
  | inl here ↦ (v, rw here refl)
  | inr other ↦ rw other (lookup_of_includes k o (rw other at h))
]

filter_entries-IsListed :
    (assets : Object String) (rates : Object IMarketRates)
    → All (IsListed assets) (filter_entries (includes (keys assets)) rates)
filter_entries-IsListed assets [] = tt
filter_entries-IsListed assets ((symbol, r) ∷ rates) =
    elim (Bool-cases (includes (keys assets) symbol)) [
      | inl kept ↦
          rw kept (lookup_of_includes symbol assets kept, filter_entries-IsListed assets rates)
      | inr dropped ↦ rw dropped (filter_entries-IsListed assets rates)
    ]

module _ (env : Env) (config : ICommonConfiguration) (assets : Object String)
    (oracle helper : Contract) (admin : String) (h : History) where
  -- If the market lists assets for the network, its rates name no symbol twice, the helper contract is
  -- found and every transaction goes through, the rates that
  -- the market keeps can all be set: the run succeeds, and the rates oracle is given the address and
  -- the rate of every asset that has a rate in the configuration, in chunks of 20, between the
  -- handover of the oracle to the helper contract and its return to the admin.
  pub set_market_rates_of_assets :
      IsLive env
      → lookup (current_network env) config.reserve_assets ≡ some assets
      → IsObject config.lending_rate_oracle_rates_common
      → get_stable_and_variable_tokens_helper env none h ≡ (ok helper, h)
      → (get_lending_rate_oracles env config >>= λ rates.
            set_initial_market_rates_in_rates_oracle_by_helper env rates assets oracle admin)
          h
        ≡ (
          ok tt,
          sent helper.signer helper.address (set_oracle_ownership oracle.address admin)
              ∷ log_all
                  (rates_call helper oracle)
                  (chunk
                    (keep_some (
                      map (row_of assets) (
                        filter_entries
                          (includes (keys assets))
                          config.lending_rate_oracle_rates_common)))
                    rates_chunks)
                  (sent oracle.signer oracle.address (transfer_ownership helper.address) ∷ h),
        )
  set_market_rates_of_assets live listed object at_helper =
      ap (resume _) (get_lending_rate_oracles_lem env config assets h listed object)
      ∙ set_initial_market_rates_live env _ assets oracle helper admin h at_helper live
          (filter_entries-IsListed assets config.lending_rate_oracle_rates_common)
