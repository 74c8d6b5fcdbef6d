-- ===== src/OraclesHelpers/Adds.antt =====
-- What the rates of an oracle add to the history, under a test that lets their transactions through.
use vinium_lending.Prelude.{String, Bool, true, ◌≡◌, List, [], ◌∷◌, Object}
use vinium_lending.Effects.{
  Env, Call, or_throw, type_error, transfer_ownership, set_oracle_borrow_rates,
  set_oracle_ownership,
}
use vinium_lending.Effects.Adds.{
  Adds, allows, adds_rules, Adds-bind, Adds-or_throw, Adds-pure, Adds-throw,
}
use vinium_lending.Types.Config.{IMarketRates}
use vinium_lending.ContractsHelpers.{Contract}
use vinium_lending.ContractsHelpers.Adds.{allows-Requests, send_and_wait-Adds}
use vinium_lending.ContractsGetters.{get_stable_and_variable_tokens_helper}
use vinium_lending.ContractsGetters.Adds.{connect_or_db-Adds}
use vinium_lending.OraclesHelpers.{
  value_at, market_rows, send_rates, set_initial_market_rates_in_rates_oracle_by_helper,
}

-- The test lets through the transactions that set the rates.
pub record RateCalls (q : Call → Bool) : Type 0 where
  pub transfers : (owner : String) → q (transfer_ownership owner) ≡ true
  pub sets :
      (assets rates : List String) (oracle : String)
      → q (set_oracle_borrow_rates assets rates oracle) ≡ true
  pub returns : (oracle admin : String) → q (set_oracle_ownership oracle admin) ≡ true

module _ (env : Env) {q : Call → Bool} (calls : RateCalls q) where
  market_rows-Adds :
      (rates : Object IMarketRates) (assets : Object String)
      → Adds (allows q) (market_rows rates assets)
  unfolding market_rows
  market_rows-Adds [] assets = Adds-pure []
  market_rows-Adds ((symbol, rate) ∷ rates) assets =
      Adds-bind (or_throw (value_at symbol assets) type_error) _ (Adds-or_throw _ _)
        λ address. Adds-bind _ _ (market_rows-Adds rates assets) λ rows. Adds-pure _

  send_rates-Adds :
      (helper oracle : Contract) (tokens rates : List (List String))
      → Adds (allows q) (send_rates env helper oracle tokens rates)
  unfolding send_rates
  send_rates-Adds helper oracle [] rates = Adds-pure tt
  send_rates-Adds helper oracle (chunk ∷ tokens) [] = Adds-throw _
  send_rates-Adds helper oracle (chunk ∷ tokens) (rate ∷ rates) =
      Adds-bind _ _ (send_and_wait-Adds env q helper _ (calls.sets _ _ _))
        λ _. send_rates-Adds helper oracle tokens rates

  pub set_initial_market_rates-Adds :
      (rates : Object IMarketRates) (assets : Object String) (oracle : Contract) (admin : String)
      → Adds
          (allows q)
          (set_initial_market_rates_in_rates_oracle_by_helper env rates assets oracle admin)
  unfolding set_initial_market_rates_in_rates_oracle_by_helper get_stable_and_variable_tokens_helper
  set_initial_market_rates-Adds rates assets oracle admin =
      search
        (
          adds_rules,
          connect_or_db-Adds env (allows-Requests q),
          market_rows-Adds,
          send_and_wait-Adds env q,
          send_rates-Adds,
          calls.transfers,
          calls.returns,
        )
        depth 8
