-- ===== src/OraclesHelpers/Rates.antt =====
-- `setInitialMarketRatesInRatesOracleByHelper`: the borrow rates that the oracle is given.
use vinium_lending.Prelude.{
  String, ◌≡◌, refl, ap, ◌∙◌, Option, none, some, List, [], ◌∷◌, map, lookup, Object, All,
  Option-cases, inl, inr, keep_some,
}
use mathlib.Core.List.{Memᴰ}
use vinium_lending.Effects.{
  Env, IsLive, transfer_ownership, set_oracle_borrow_rates, set_oracle_ownership, sent, Action,
  History, ok, err, type_error, resume,
}
use vinium_lending.Effects.Laws.{log_all}
use vinium_lending.Types.Config.{IMarketRates}
use vinium_lending.MiscUtils.{chunk}
use vinium_lending.MiscUtils.ChunkMap.{chunk-map}
use vinium_lending.ContractsHelpers.{Contract}
use vinium_lending.ContractsHelpers.Registry.{send_and_wait_live}
use vinium_lending.ContractsGetters.{get_stable_and_variable_tokens_helper}
use vinium_lending.ContractsGetters.Pairs.{entry_value-find_index}
use vinium_lending.OraclesHelpers.{
  market_rows, rates_chunks, send_rates, set_initial_market_rates_in_rates_oracle_by_helper,
}

-- The asset's address beside its rate.
abbrev pub row_of : Object String → String × IMarketRates → Option (String × String)
row_of assets (symbol, rates) = elim (lookup symbol assets) [
  | none ↦ none
  | some address ↦ some (address, rates.borrow_rate)
]

-- The asset has an address.
abbrev pub IsListed : Object String → String × IMarketRates → Type 0
IsListed assets (symbol, rates) = (address : String) × (lookup symbol assets ≡ some address)

market_rows_listed :
    (market_rates : Object IMarketRates) (assets : Object String) (h : History)
    → All (IsListed assets) market_rates
    → market_rows market_rates assets h ≡ (ok (keep_some (map (row_of assets) market_rates)), h)
unfolding market_rows
market_rows_listed [] assets h listed = refl
market_rows_listed ((symbol, rates) ∷ market_rates) assets h ((address, found), listed) =
    rw (entry_value-find_index symbol assets, found, row_of)
      (ap (resume _) (market_rows_listed market_rates assets h listed))

market_rows_unlisted :
    (symbol : String) (rates : IMarketRates) (market_rates : Object IMarketRates)
    (assets : Object String) (h : History)
    → lookup symbol assets ≡ none
    → Memᴰ (symbol, rates) market_rates
    → market_rows market_rates assets h ≡ (err type_error, h)
unfolding market_rows
market_rows_unlisted symbol rates [] assets h missing listed = elim listed [ ]
market_rows_unlisted symbol rates ((s, r) ∷ market_rates) assets h missing (Memᴰ.head same) =
    rw (entry_value-find_index s assets, ← ap (λ e. lookup e.0 assets) same, missing) refl
market_rows_unlisted symbol rates ((s, r) ∷ market_rates) assets h missing (Memᴰ.tail later) =
    rw (entry_value-find_index s assets) (elim (Option-cases (lookup s assets)) [
      | inl none_here ↦ rw none_here refl
      | inr (address, found) ↦
          rw found
            (ap (resume _) (market_rows_unlisted symbol rates market_rates assets h missing later))
    ])

abbrev pub rates_call : (helper oracle : Contract) → List (String × String) → Action
rates_call helper oracle rows =
    sent helper.signer helper.address
      (set_oracle_borrow_rates (map (λ r. r.0) rows) (map (λ r. r.1) rows) oracle.address)

module _ (env : Env) (helper oracle : Contract) where
  send_rates_live :
      IsLive env
      → (chunks : List (List (String × String))) (h : History)
      → send_rates env helper oracle (map (map (λ r. r.0)) chunks) (map (map (λ r. r.1)) chunks) h
        ≡ (ok tt, log_all (rates_call helper oracle) chunks h)
  unfolding send_rates
  send_rates_live live [] h = refl
  send_rates_live live (c ∷ chunks) h =
      ap (resume _) (send_and_wait_live env live helper _ h) ∙ send_rates_live live chunks _

  send_rates-chunk :
      IsLive env
      → (rows : List (String × String)) (h : History)
      → send_rates env helper oracle
          (chunk (map (λ r. r.0) rows) rates_chunks)
          (chunk (map (λ r. r.1) rows) rates_chunks)
          h
        ≡ (ok tt, log_all (rates_call helper oracle) (chunk rows rates_chunks) h)
  send_rates-chunk live rows h =
      rw (chunk-map (λ r. r.0) rows rates_chunks, chunk-map (λ r. r.1) rows rates_chunks)
        (send_rates_live live (chunk rows rates_chunks) h)

module _ (env : Env) (market_rates : Object IMarketRates) (assets : Object String)
    (oracle helper : Contract) (admin : String) (h : History)
    (at_helper : get_stable_and_variable_tokens_helper env none h ≡ (ok helper, h)) where
  -- If the helper contract is found, every market has an asset and every transaction goes through, the helper succeeds: it makes
  -- the helper contract the oracle's owner, sends the rates beside the addresses of their assets in
  -- chunks of 20, each address with its own rate, and gives the oracle to the admin last.
  pub set_initial_market_rates_live :
      IsLive env
      → All (IsListed assets) market_rates
      → set_initial_market_rates_in_rates_oracle_by_helper env market_rates assets oracle admin h
        ≡ (
          ok tt,
          sent helper.signer helper.address (set_oracle_ownership oracle.address admin)
              ∷ log_all
                  (rates_call helper oracle)
                  (chunk (keep_some (map (row_of assets) market_rates)) rates_chunks)
                  (sent oracle.signer oracle.address (transfer_ownership helper.address) ∷ h),
        )
  unfolding set_initial_market_rates_in_rates_oracle_by_helper
  set_initial_market_rates_live live listed =
      ap (resume _) at_helper
      ∙ (ap (resume _) (market_rows_listed market_rates assets h listed)
          ∙ (ap (resume _) (send_and_wait_live env live oracle _ h)
              ∙ (ap (resume _) (send_rates-chunk env helper oracle live _ _)
                  ∙ send_and_wait_live env live helper _ _)))

  -- If the helper contract is found and a market has no asset, the helper throws before it sends any transaction.
  pub set_initial_market_rates_unlisted :
      (symbol : String) (rates : IMarketRates)
      → lookup symbol assets ≡ none
      → Memᴰ (symbol, rates) market_rates
      → set_initial_market_rates_in_rates_oracle_by_helper env market_rates assets oracle admin h
        ≡ (err type_error, h)
  unfolding set_initial_market_rates_in_rates_oracle_by_helper
  set_initial_market_rates_unlisted symbol rates missing listed =
      ap (resume _) at_helper
      ∙ ap (resume _) (market_rows_unlisted symbol rates market_rates assets h missing listed)
