-- ===== src/ContractsGetters/Adds.antt =====
-- What the getters add to the history.
use vinium_lending.Prelude.{String, Bool, Option, truthy}
use vinium_lending.Effects.{Env, Action}
use vinium_lending.Effects.Adds.{Adds, adds_rules, Adds-bind, Adds-elim_bool, Adds-elim_option}
use vinium_lending.MiscUtils.{not_falsy_or_zero_address}
use vinium_lending.Signers.Adds.{Requests, get_first_signer-Adds}
use vinium_lending.ContractsGetters.{
  db_address, connect, connect_or_db, get_address_by_id, get_proxy,
  get_lending_pool_addresses_provider_registry, get_lending_pool,
  get_lending_pool_addresses_provider, get_lending_pool_configurator_proxy,
  get_vinium_protocol_data_provider, get_weth_gateway, get_wallet_provider, get_lending_pool_impl,
  get_lending_pool_configurator_impl, get_lending_pool_collateral_manager_impl,
  get_vi_tokens_and_rates_helper, get_stable_and_variable_tokens_helper, get_vinium_oracle,
  get_lending_rate_oracle, get_interest_rate_strategy, get_vi_token, get_stable_vd_token,
  get_variable_vd_token,
}

module _ (env : Env) {p : Action → Bool} (requests : Requests p) where
  pub db_address-Adds : (id : String) → Adds p (db_address env id)
  unfolding db_address
  db_address-Adds id = search adds_rules

  pub connect-Adds : (factory address : String) → Adds p (connect env factory address)
  unfolding connect
  connect-Adds factory address = search (adds_rules, get_first_signer-Adds env requests)

  pub connect_or_db-Adds :
      (factory id : String) (address : Option String)
      → Adds p (connect_or_db env factory id address)
  unfolding connect_or_db
  connect_or_db-Adds factory id address =
      Adds-bind _ _
        (Adds-elim_option (truthy address) _ _ (db_address-Adds id) (λ given. search adds_rules))
        λ target. connect-Adds factory target

  pub get_proxy-Adds : (address : String) → Adds p (get_proxy env address)
  unfolding get_proxy
  get_proxy-Adds address = connect-Adds _ address

  pub get_address_by_id-Adds : (id : String) → Adds p (get_address_by_id env id)
  unfolding get_address_by_id
  get_address_by_id-Adds id = search adds_rules

  pub get_lending_pool_addresses_provider_registry-Adds :
      (address : Option String) → Adds p (get_lending_pool_addresses_provider_registry env address)
  unfolding get_lending_pool_addresses_provider_registry
  get_lending_pool_addresses_provider_registry-Adds address =
      Adds-bind _ _
        (Adds-elim_bool (not_falsy_or_zero_address env address) _ _ (search adds_rules)
          (db_address-Adds _))
        λ target. connect-Adds _ target

  pub get_lending_pool-Adds : (address : Option String) → Adds p (get_lending_pool env address)
  unfolding get_lending_pool
  get_lending_pool-Adds address = connect_or_db-Adds _ _ address

  pub get_lending_pool_addresses_provider-Adds :
      (address : Option String) → Adds p (get_lending_pool_addresses_provider env address)
  unfolding get_lending_pool_addresses_provider
  get_lending_pool_addresses_provider-Adds address = connect_or_db-Adds _ _ address

  pub get_lending_pool_configurator_proxy-Adds :
      (address : Option String) → Adds p (get_lending_pool_configurator_proxy env address)
  unfolding get_lending_pool_configurator_proxy
  get_lending_pool_configurator_proxy-Adds address = connect_or_db-Adds _ _ address

  pub get_vinium_protocol_data_provider-Adds :
      (address : Option String) → Adds p (get_vinium_protocol_data_provider env address)
  unfolding get_vinium_protocol_data_provider
  get_vinium_protocol_data_provider-Adds address = connect_or_db-Adds _ _ address

  pub get_weth_gateway-Adds : (address : Option String) → Adds p (get_weth_gateway env address)
  unfolding get_weth_gateway
  get_weth_gateway-Adds address = connect_or_db-Adds _ _ address

  pub get_wallet_provider-Adds :
      (address : Option String) → Adds p (get_wallet_provider env address)
  unfolding get_wallet_provider
  get_wallet_provider-Adds address = connect_or_db-Adds _ _ address

  pub get_lending_pool_impl-Adds :
      (address : Option String) → Adds p (get_lending_pool_impl env address)
  unfolding get_lending_pool_impl
  get_lending_pool_impl-Adds address = connect_or_db-Adds _ _ address

  pub get_lending_pool_configurator_impl-Adds :
      (address : Option String) → Adds p (get_lending_pool_configurator_impl env address)
  unfolding get_lending_pool_configurator_impl
  get_lending_pool_configurator_impl-Adds address = connect_or_db-Adds _ _ address

  pub get_lending_pool_collateral_manager_impl-Adds :
      (address : Option String) → Adds p (get_lending_pool_collateral_manager_impl env address)
  unfolding get_lending_pool_collateral_manager_impl
  get_lending_pool_collateral_manager_impl-Adds address = connect_or_db-Adds _ _ address

  pub get_vi_tokens_and_rates_helper-Adds :
      (address : Option String) → Adds p (get_vi_tokens_and_rates_helper env address)
  unfolding get_vi_tokens_and_rates_helper
  get_vi_tokens_and_rates_helper-Adds address = connect_or_db-Adds _ _ address

  pub get_stable_and_variable_tokens_helper-Adds :
      (address : Option String) → Adds p (get_stable_and_variable_tokens_helper env address)
  unfolding get_stable_and_variable_tokens_helper
  get_stable_and_variable_tokens_helper-Adds address = connect_or_db-Adds _ _ address

  pub get_vinium_oracle-Adds : (address : Option String) → Adds p (get_vinium_oracle env address)
  unfolding get_vinium_oracle
  get_vinium_oracle-Adds address = connect_or_db-Adds _ _ address

  pub get_lending_rate_oracle-Adds :
      (address : Option String) → Adds p (get_lending_rate_oracle env address)
  unfolding get_lending_rate_oracle
  get_lending_rate_oracle-Adds address = connect_or_db-Adds _ _ address

  pub get_interest_rate_strategy-Adds :
      (address : Option String) → Adds p (get_interest_rate_strategy env address)
  unfolding get_interest_rate_strategy
  get_interest_rate_strategy-Adds address = connect_or_db-Adds _ _ address

  pub get_vi_token-Adds : (address : Option String) → Adds p (get_vi_token env address)
  unfolding get_vi_token
  get_vi_token-Adds address = connect_or_db-Adds _ _ address

  pub get_stable_vd_token-Adds :
      (address : Option String) → Adds p (get_stable_vd_token env address)
  unfolding get_stable_vd_token
  get_stable_vd_token-Adds address = connect_or_db-Adds _ _ address

  pub get_variable_vd_token-Adds :
      (address : Option String) → Adds p (get_variable_vd_token env address)
  unfolding get_variable_vd_token
  get_variable_vd_token-Adds address = connect_or_db-Adds _ _ address

-- The getters of contracts, as rules for `search`.
pub ruleset getter_rules = (
  get_proxy-Adds, get_address_by_id-Adds, get_lending_pool_addresses_provider_registry-Adds,
  connect-Adds, get_lending_pool-Adds, get_lending_pool_addresses_provider-Adds,
  get_lending_pool_configurator_proxy-Adds, get_vinium_protocol_data_provider-Adds,
  get_weth_gateway-Adds, get_wallet_provider-Adds, get_lending_pool_impl-Adds,
  get_lending_pool_configurator_impl-Adds, get_lending_pool_collateral_manager_impl-Adds,
  get_vi_tokens_and_rates_helper-Adds, get_stable_and_variable_tokens_helper-Adds,
  get_vinium_oracle-Adds, get_lending_rate_oracle-Adds, get_interest_rate_strategy-Adds,
  get_vi_token-Adds, get_stable_vd_token-Adds, get_variable_vd_token-Adds,
)
