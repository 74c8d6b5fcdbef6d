-- ===== src/Tasks/Registration.antt =====
-- How `full:deploy-oracles` ends.
use vinium_lending.Prelude.{
  String, ◌≡◌, refl, ap, ◌∙◌, Bool, Option, none, List, ◌∷◌, Bool-cases, inl, inr, Object,
}
use vinium_lending.Types.Config.{IMarketRates, ICommonConfiguration}
use vinium_lending.Effects.{
  Env, Call, sent, set_price_oracle, set_lending_rate_oracle, History, M, ok, resume,
}
use vinium_lending.Effects.Ensures.{
  Ensures, returned, threw, Ensures-resume, Ensures-self, Ensures-imp,
}
use vinium_lending.MiscUtils.{wait_for_tx}
use vinium_lending.ContractsHelpers.{Contract, get_param_per_network, send_and_wait}
use vinium_lending.ContractsGetters.{get_lending_pool_addresses_provider}
use vinium_lending.Configuration.{
  ConfigNames, load_pool_config, get_genesis_pool_admin, get_lending_rate_oracles,
}
use vinium_lending.Tasks.Oracles.{
  tokens_to_watch, pairs_or_throw, price_oracle, rate_oracle, deploy_oracles,
}
use vinium_lending.Effects.{perform}

-- The tokens that have a price source to be set, and their pairs with the sources.
abbrev watched_tokens : Env → ICommonConfiguration → Object String
watched_tokens env config =
    tokens_to_watch (get_param_per_network env config.reserve_assets env.network_name)
      config.protocol_global_params.usd_address

abbrev watched_pairs : Env → ICommonConfiguration → M (List String × List String)
watched_pairs env config =
    pairs_or_throw (watched_tokens env config)
      (get_param_per_network env config.chainlink_aggregator env.network_name)
      config.oracle_quote_currency

-- A transaction that was waited for is the newest action.
pub send_and_wait-Ensures :
    (env : Env) (c : Contract) (call : Call) (h : History)
    → Ensures (λ _ k. k ≡ sent c.signer c.address call ∷ h) (send_and_wait env c call h)
unfolding send_and_wait wait_for_tx perform
send_and_wait-Ensures env c call h =
    elim (Bool-cases (env.accepts h (sent c.signer c.address call))) [
      | inl accepted ↦
          rw accepted (elim (Bool-cases (env.mines (sent c.signer c.address call ∷ h))) [
            | inl mined ↦ rw mined (returned refl)
            | inr lost ↦ rw lost threw
          ])
      | inr refused ↦ rw refused threw
    ]

module _ (env : Env) where
  -- From `h` to `k`, a run of the oracles' deployment for a market has found the addresses provider,
  -- then the price oracle and then the rates oracle of the market's watched tokens, and its last two
  -- actions register the first as the provider's price oracle and the second as its rates oracle.
  pub record RegistersOracles (pool : ConfigNames) (verify : Bool) (h k : History) : Type 0 where
    pub config : ICommonConfiguration
    pub rates : Object IMarketRates
    pub provider : Contract
    pub admin : Option String
    pub pairs : List String × List String
    pub prices : Contract
    pub lending_rates : Contract
    pub loaded : History
    pub filtered : History
    pub found : History
    pub chosen : History
    pub paired : History
    pub priced : History
    pub before : History
    pub at_config : load_pool_config env pool h ≡ (ok config, loaded)
    pub at_rates : get_lending_rate_oracles env config loaded ≡ (ok rates, filtered)
    pub at_provider : get_lending_pool_addresses_provider env none filtered ≡ (ok provider, found)
    pub at_admin : get_genesis_pool_admin env config found ≡ (ok admin, chosen)
    pub at_pairs : watched_pairs env config chosen ≡ (ok pairs, paired)
    pub at_prices : price_oracle env config pairs.0 pairs.1 verify paired ≡ (ok prices, priced)
    pub at_lending_rates :
        rate_oracle env config rates (watched_tokens env config) admin verify priced
        ≡ (ok lending_rates, before)
    pub newest :
        k
        ≡ sent provider.signer provider.address (set_lending_rate_oracle lending_rates.address)
          ∷ sent provider.signer provider.address (set_price_oracle prices.address)
          ∷ before

  -- The two registrations.
  registrations-Ensures :
      (provider prices rates : Contract) (h : History)
      → Ensures
          (λ _ k.
            k
            ≡ sent provider.signer provider.address (set_lending_rate_oracle rates.address)
              ∷ sent provider.signer provider.address (set_price_oracle prices.address)
              ∷ h)
          (resume
            (λ _. send_and_wait env provider (set_lending_rate_oracle rates.address))
            (send_and_wait env provider (set_price_oracle prices.address) h))
  registrations-Ensures provider prices rates h =
      Ensures-resume _ (send_and_wait-Ensures env provider (set_price_oracle prices.address) h)
        λ _ k first.
          Ensures-imp (send_and_wait-Ensures env provider (set_lending_rate_oracle rates.address) k)
            λ _ k' second.
              second
              ∙ ap
                  (λ before.
                    sent provider.signer provider.address (set_lending_rate_oracle rates.address)
                    ∷ before)
                  first

  -- If the oracles' deployment returns, for any pool and in any world, its last two actions register
  -- at the addresses provider, as its price oracle, the price oracle that it found or deployed, and
  -- then, as its rates oracle, the rates oracle that it found or deployed after that.
  pub deploy_oracles_registers :
      (pool : ConfigNames) (verify : Bool) (h : History)
      → Ensures (λ _. RegistersOracles pool verify h) (deploy_oracles env pool verify h)
  unfolding deploy_oracles
  deploy_oracles_registers pool verify h =
      Ensures-resume _ (Ensures-self (load_pool_config env pool h)) λ config k1 at_config.
        Ensures-resume _ (Ensures-self (get_lending_rate_oracles env config k1))
          λ rates k2 at_rates.
            Ensures-resume _ (Ensures-self (get_lending_pool_addresses_provider env none k2))
              λ provider k3 at_provider.
                Ensures-resume _ (Ensures-self (get_genesis_pool_admin env config k3))
                  λ admin k4 at_admin.
                    Ensures-resume _ (Ensures-self (watched_pairs env config k4))
                      λ pairs k5 at_pairs.
                        Ensures-resume _
                          (Ensures-self (price_oracle env config pairs.0 pairs.1 verify k5))
                          λ prices k6 at_prices.
                            Ensures-resume _
                              (Ensures-self (
                                rate_oracle env config rates (watched_tokens env config) admin
                                  verify k6))
                              λ lending_rates k7 at_lending_rates.
                                Ensures-imp (registrations-Ensures provider prices lending_rates k7)
                                  λ _ k newest. record {
                                    config = config;
                                    rates = rates;
                                    provider = provider;
                                    admin = admin;
                                    pairs = pairs;
                                    prices = prices;
                                    lending_rates = lending_rates;
                                    loaded = k1;
                                    filtered = k2;
                                    found = k3;
                                    chosen = k4;
                                    paired = k5;
                                    priced = k6;
                                    before = k7;
                                    at_config = at_config;
                                    at_rates = at_rates;
                                    at_provider = at_provider;
                                    at_admin = at_admin;
                                    at_pairs = at_pairs;
                                    at_prices = at_prices;
                                    at_lending_rates = at_lending_rates;
                                    newest = newest;
                                  }
