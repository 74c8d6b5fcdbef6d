-- ===== src/ContractsDeployments/Mocks.antt =====
-- The contracts of test networks.
use vinium_lending.Prelude.{String, Bool, [], ◌∷◌}
use vinium_lending.Effects.{Env, one, M}
use vinium_lending.Types.ContractId.{
  id_value, mintable_delegation_erc20, mintable_erc20, mock_aggregator, mock_flash_loan_receiver,
  mock_para_swap_augustus, mock_para_swap_augustus_registry, mock_uniswap_v2_router02,
  selfdestruct_transfer_mock, weth_mocked,
}
use vinium_lending.ContractsDeployments.Save.{deploy_and_save}
use vinium_lending.ContractsHelpers.{Contract}

module _ (env : Env) where
  unfoldable pub deploy_mock_aggregator : (price : String) → Bool → M Contract
  deploy_mock_aggregator price verify =
      deploy_and_save env "MockAggregator" (id_value mock_aggregator) (one price ∷ []) verify

  unfoldable pub deploy_mock_flash_loan_receiver : (addresses_provider : String) → Bool → M Contract
  deploy_mock_flash_loan_receiver addresses_provider verify =
      deploy_and_save env "MockFlashLoanReceiver" (id_value mock_flash_loan_receiver)
        (one addresses_provider ∷ []) verify

  unfoldable pub deploy_mintable_erc20 : (a1 a2 a3 : String) → Bool → M Contract
  deploy_mintable_erc20 a1 a2 a3 verify =
      deploy_and_save env "MintableERC20" (id_value mintable_erc20) (one a1 ∷ one a2 ∷ one a3 ∷ [])
        verify

  unfoldable pub deploy_mintable_delegation_erc20 : (a1 a2 a3 : String) → Bool → M Contract
  deploy_mintable_delegation_erc20 a1 a2 a3 verify =
      deploy_and_save env "MintableDelegationERC20" (id_value mintable_delegation_erc20)
        (one a1 ∷ one a2 ∷ one a3 ∷ []) verify

  unfoldable pub deploy_weth_mocked : Bool → M Contract
  deploy_weth_mocked verify = deploy_and_save env "WETH9Mocked" (id_value weth_mocked) [] verify

  unfoldable pub deploy_selfdestruct_transfer_mock : Bool → M Contract
  deploy_selfdestruct_transfer_mock verify =
      deploy_and_save env "SelfdestructTransfer" (id_value selfdestruct_transfer_mock) [] verify

  unfoldable pub deploy_mock_uniswap_router : Bool → M Contract
  deploy_mock_uniswap_router verify =
      deploy_and_save env "MockUniswapV2Router02" (id_value mock_uniswap_v2_router02) [] verify

  unfoldable pub deploy_mock_para_swap_augustus : Bool → M Contract
  deploy_mock_para_swap_augustus verify =
      deploy_and_save env "MockParaSwapAugustus" (id_value mock_para_swap_augustus) [] verify

  unfoldable pub deploy_mock_para_swap_augustus_registry : (a1 : String) → Bool → M Contract
  deploy_mock_para_swap_augustus_registry a1 verify =
      deploy_and_save env "MockParaSwapAugustusRegistry" (id_value mock_para_swap_augustus_registry)
        (one a1 ∷ []) verify
