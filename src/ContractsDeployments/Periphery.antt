-- ===== src/ContractsDeployments/Periphery.antt =====
-- Data providers for the user interface and the swap adapters.
use vinium_lending.Prelude.{String, Bool, [], ◌∷◌}
use vinium_lending.Effects.{Env, one, M, pure, when, ◌>>=◌, ◌>>◌}
use vinium_lending.Types.ContractId.{
  id_value, flash_liquidation_adapter, para_swap_liquidity_swap_adapter,
  ui_incentive_data_provider_v2, ui_incentive_data_provider_v2_v3, ui_pool_data_provider,
  uniswap_liquidity_swap_adapter, uniswap_repay_adapter,
}
use vinium_lending.ContractsDeployments.Save.{deploy_and_save}
use vinium_lending.Verification.{verify_contract}
use vinium_lending.ContractsHelpers.{Contract, deploy_contract}

module _ (env : Env) where
  unfoldable pub deploy_ui_incentive_data_provider_v2 : Bool → M Contract
  deploy_ui_incentive_data_provider_v2 verify =
      deploy_and_save env "UiIncentiveDataProviderV2" (id_value ui_incentive_data_provider_v2) []
        verify

  unfoldable pub deploy_ui_pool_data_provider_v2 :
      (chainlink_aggregator_proxy chainlink_eth_usd_aggregator_proxy : String) → Bool → M Contract
  deploy_ui_pool_data_provider_v2 chainlink_aggregator_proxy chainlink_eth_usd_aggregator_proxy
        verify =
      deploy_and_save env "UiPoolDataProviderV2" (id_value ui_pool_data_provider)
        (one chainlink_aggregator_proxy ∷ one chainlink_eth_usd_aggregator_proxy ∷ []) verify

  unfoldable pub deploy_ui_pool_data_provider_v2_v3 :
      (chainlink_aggregator_proxy chainlink_eth_usd_aggregator_proxy : String) → Bool → M Contract
  deploy_ui_pool_data_provider_v2_v3 chainlink_aggregator_proxy chainlink_eth_usd_aggregator_proxy
        verify =
      deploy_and_save env "UiPoolDataProviderV2V3" (id_value ui_pool_data_provider)
        (one chainlink_aggregator_proxy ∷ one chainlink_eth_usd_aggregator_proxy ∷ []) verify

  unfoldable pub deploy_uniswap_liquidity_swap_adapter : (a1 a2 a3 : String) → Bool → M Contract
  deploy_uniswap_liquidity_swap_adapter a1 a2 a3 verify =
      deploy_and_save env "UniswapLiquiditySwapAdapter" (id_value uniswap_liquidity_swap_adapter)
        (one a1 ∷ one a2 ∷ one a3 ∷ []) verify

  unfoldable pub deploy_uniswap_repay_adapter : (a1 a2 a3 : String) → Bool → M Contract
  deploy_uniswap_repay_adapter a1 a2 a3 verify =
      deploy_and_save env "UniswapRepayAdapter" (id_value uniswap_repay_adapter)
        (one a1 ∷ one a2 ∷ one a3 ∷ []) verify

  unfoldable pub deploy_flash_liquidation_adapter : (a1 a2 a3 : String) → Bool → M Contract
  deploy_flash_liquidation_adapter a1 a2 a3 verify =
      deploy_and_save env "FlashLiquidationAdapter" (id_value flash_liquidation_adapter)
        (one a1 ∷ one a2 ∷ one a3 ∷ []) verify

  unfoldable pub deploy_para_swap_liquidity_swap_adapter : (a1 a2 : String) → Bool → M Contract
  deploy_para_swap_liquidity_swap_adapter a1 a2 verify =
      deploy_and_save env "ParaSwapLiquiditySwapAdapter" (id_value para_swap_liquidity_swap_adapter)
        (one a1 ∷ one a2 ∷ []) verify

  unfoldable pub deploy_ui_incentive_data_provider_v2_v3 : Bool → M Contract
  deploy_ui_incentive_data_provider_v2_v3 verify = do
    let id = id_value ui_incentive_data_provider_v2_v3
    instance_ ← deploy_contract env id []
    when verify (verify_contract env id instance_.address [])
    pure instance_

  unfoldable pub deploy_ui_pool_data_provider :
      (incentives_controller vinium_oracle : String) → Bool → M Contract
  deploy_ui_pool_data_provider incentives_controller vinium_oracle verify = do
    let id = id_value ui_pool_data_provider
    let args = one incentives_controller ∷ one vinium_oracle ∷ []
    instance_ ← deploy_contract env id args
    when verify (verify_contract env id instance_.address args)
    pure instance_
