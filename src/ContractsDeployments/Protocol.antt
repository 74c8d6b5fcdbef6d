-- ===== src/ContractsDeployments/Protocol.antt =====
-- The protocol's contracts and the helpers of its deployment.
use vinium_lending.Prelude.{String, Bool, List, [], ◌∷◌}
use vinium_lending.Effects.{Env, one, many, authorize_lending_pool, M, pure, ◌>>=◌, ◌>>◌}
use vinium_lending.Types.ContractId.{
  id_value, default_reserve_interest_rate_strategy, initializable_admin_upgradeability_proxy,
  lending_pool_addresses_provider, lending_pool_addresses_provider_registry,
  lending_pool_collateral_manager, lending_pool_collateral_manager_impl, lending_pool_configurator,
  lending_pool_configurator_impl, lending_rate_oracle, price_oracle, reserve_logic,
  stable_and_variable_tokens_helper, vi_tokens_and_rates_helper, vinium_oracle,
  vinium_protocol_data_provider, wallet_balance_provider, weth_gateway,
}
use vinium_lending.ContractsDeployments.Save.{deploy_and_save}
use vinium_lending.Signers.{get_first_signer}
use vinium_lending.ContractsHelpers.{
  Contract, deploy, send, insert_contract_address_in_db, with_save_and_verify,
}

module _ (env : Env) where
  unfoldable pub deploy_lending_pool_addresses_provider : (market_id : String) → Bool → M Contract
  deploy_lending_pool_addresses_provider market_id verify =
      deploy_and_save env "LendingPoolAddressesProvider" (id_value lending_pool_addresses_provider)
        (one market_id ∷ []) verify

  unfoldable pub deploy_lending_pool_addresses_provider_registry : Bool → M Contract
  deploy_lending_pool_addresses_provider_registry verify =
      deploy_and_save env "LendingPoolAddressesProviderRegistry"
        (id_value lending_pool_addresses_provider_registry) [] verify

  unfoldable pub deploy_reserve_logic_library : Bool → M Contract
  deploy_reserve_logic_library verify =
      deploy_and_save env "ReserveLogic" (id_value reserve_logic) [] verify

  unfoldable pub deploy_price_oracle : Bool → M Contract
  deploy_price_oracle verify = deploy_and_save env "PriceOracle" (id_value price_oracle) [] verify

  unfoldable pub deploy_lending_rate_oracle : Bool → M Contract
  deploy_lending_rate_oracle verify =
      deploy_and_save env "LendingRateOracle" (id_value lending_rate_oracle) [] verify

  unfoldable pub deploy_initializable_admin_upgradeability_proxy : Bool → M Contract
  deploy_initializable_admin_upgradeability_proxy verify =
      deploy_and_save env "InitializableAdminUpgradeabilityProxy"
        (id_value initializable_admin_upgradeability_proxy) [] verify

  unfoldable pub deploy_wallet_balancer_provider : Bool → M Contract
  deploy_wallet_balancer_provider verify =
      deploy_and_save env "WalletBalanceProvider" (id_value wallet_balance_provider) [] verify

  unfoldable pub deploy_vinium_protocol_data_provider :
      (addresses_provider : String) → Bool → M Contract
  deploy_vinium_protocol_data_provider addresses_provider verify =
      deploy_and_save env "ViniumProtocolDataProvider" (id_value vinium_protocol_data_provider)
        (one addresses_provider ∷ []) verify

  unfoldable pub deploy_default_reserve_interest_rate_strategy :
      (a1 a2 a3 a4 a5 a6 a7 : String) → Bool → M Contract
  deploy_default_reserve_interest_rate_strategy a1 a2 a3 a4 a5 a6 a7 verify =
      deploy_and_save env "DefaultReserveInterestRateStrategy"
        (id_value default_reserve_interest_rate_strategy)
        (one a1 ∷ one a2 ∷ one a3 ∷ one a4 ∷ one a5 ∷ one a6 ∷ one a7 ∷ []) verify

  unfoldable pub deploy_stable_and_variable_tokens_helper : (a1 a2 : String) → Bool → M Contract
  deploy_stable_and_variable_tokens_helper a1 a2 verify =
      deploy_and_save env "StableAndVariableTokensHelper"
        (id_value stable_and_variable_tokens_helper) (one a1 ∷ one a2 ∷ []) verify

  unfoldable pub deploy_vi_tokens_and_rates_helper : (a1 a2 a3 : String) → Bool → M Contract
  deploy_vi_tokens_and_rates_helper a1 a2 a3 verify =
      deploy_and_save env "ViTokensAndRatesHelper" (id_value vi_tokens_and_rates_helper)
        (one a1 ∷ one a2 ∷ one a3 ∷ []) verify

  unfoldable pub deploy_weth_gateway : (a1 : String) → Bool → M Contract
  deploy_weth_gateway a1 verify =
      deploy_and_save env "WETHGateway" (id_value weth_gateway) (one a1 ∷ []) verify

  unfoldable pub deploy_lending_pool_configurator : Bool → M Contract
  deploy_lending_pool_configurator verify = do
    impl ← deploy env "LendingPoolConfigurator" []
    insert_contract_address_in_db env (id_value lending_pool_configurator_impl) impl.address
    with_save_and_verify env impl (id_value lending_pool_configurator) [] verify

  unfoldable pub deploy_lending_pool_collateral_manager : Bool → M Contract
  deploy_lending_pool_collateral_manager verify = do
    impl ← deploy env "LendingPoolCollateralManager" []
    insert_contract_address_in_db env (id_value lending_pool_collateral_manager_impl) impl.address
    with_save_and_verify env impl (id_value lending_pool_collateral_manager) [] verify

  unfoldable pub deploy_vinium_oracle :
      (tokens aggregators : List String) (fallback quote unit : String) → Bool → M Contract
  deploy_vinium_oracle tokens aggregators fallback quote unit verify =
      deploy_and_save env "ViniumOracle" (id_value vinium_oracle)
        (many tokens ∷ many aggregators ∷ one fallback ∷ one quote ∷ one unit ∷ []) verify

  -- Its `switch` has a default case only; the result is the new contract's address.
  unfoldable pub deploy_rate_strategy :
      (name : String) (a1 a2 a3 a4 a5 a6 a7 : String) → Bool → M String
  unfolding deploy_default_reserve_interest_rate_strategy
  deploy_rate_strategy name a1 a2 a3 a4 a5 a6 a7 verify = do
    strategy ← deploy_default_reserve_interest_rate_strategy a1 a2 a3 a4 a5 a6 a7 verify
    pure strategy.address

  unfoldable pub authorize_weth_gateway : (gateway lending_pool_address : String) → M (Unit {0})
  authorize_weth_gateway gateway lending_pool_address = do
    signer ← get_first_signer env
    send env (record { factory = "WETHGateway"; address = gateway; signer = signer })
        (authorize_lending_pool lending_pool_address)
