-- ===== src/Types/ContractId.antt =====
-- The enum `eContractid` of helpers/types.ts. Its members are texts at run time.
use vinium_lending.Prelude.{String, ◌≡◌, refl, Option, none, some, if◌then◌else◌, ◌==◌}

pub data EContractId : Type 0 where
  example : EContractId
  lending_pool_addresses_provider : EContractId
  mintable_erc20 : EContractId
  mintable_delegation_erc20 : EContractId
  lending_pool_addresses_provider_registry : EContractId
  lending_pool_parameters_provider : EContractId
  lending_pool_configurator : EContractId
  validation_logic : EContractId
  reserve_logic : EContractId
  generic_logic : EContractId
  lending_pool : EContractId
  price_oracle : EContractId
  proxy : EContractId
  mock_aggregator : EContractId
  lending_rate_oracle : EContractId
  vinium_oracle : EContractId
  default_reserve_interest_rate_strategy : EContractId
  lending_pool_collateral_manager : EContractId
  initializable_admin_upgradeability_proxy : EContractId
  mock_flash_loan_receiver : EContractId
  wallet_balance_provider : EContractId
  vi_token : EContractId
  mock_vi_token : EContractId
  delegation_aware_vi_token : EContractId
  mock_stable_vd_token : EContractId
  mock_variable_vd_token : EContractId
  vinium_protocol_data_provider : EContractId
  i_erc20_detailed : EContractId
  stable_vd_token : EContractId
  variable_vd_token : EContractId
  fee_provider : EContractId
  token_distributor : EContractId
  stable_and_variable_tokens_helper : EContractId
  vi_tokens_and_rates_helper : EContractId
  ui_pool_data_provider : EContractId
  ui_pool_data_provider_v2 : EContractId
  ui_pool_data_provider_v2_v3 : EContractId
  weth_gateway : EContractId
  weth : EContractId
  weth_mocked : EContractId
  selfdestruct_transfer_mock : EContractId
  lending_pool_impl : EContractId
  lending_pool_configurator_impl : EContractId
  lending_pool_collateral_manager_impl : EContractId
  mock_uniswap_v2_router02 : EContractId
  uniswap_liquidity_swap_adapter : EContractId
  uniswap_repay_adapter : EContractId
  flash_liquidation_adapter : EContractId
  mock_para_swap_augustus : EContractId
  mock_para_swap_augustus_registry : EContractId
  para_swap_liquidity_swap_adapter : EContractId
  ui_incentive_data_provider_v2_v3 : EContractId
  ui_incentive_data_provider_v2 : EContractId

-- The text of a member: the name of a record of deployed-contracts.json.
unfoldable pub id_value : EContractId → String
id_value example = "Example"
id_value lending_pool_addresses_provider = "LendingPoolAddressesProvider"
id_value mintable_erc20 = "MintableERC20"
id_value mintable_delegation_erc20 = "MintableDelegationERC20"
id_value lending_pool_addresses_provider_registry = "LendingPoolAddressesProviderRegistry"
id_value lending_pool_parameters_provider = "LendingPoolParametersProvider"
id_value lending_pool_configurator = "LendingPoolConfigurator"
id_value validation_logic = "ValidationLogic"
id_value reserve_logic = "ReserveLogic"
id_value generic_logic = "GenericLogic"
id_value lending_pool = "LendingPool"
id_value price_oracle = "PriceOracle"
id_value proxy = "Proxy"
id_value mock_aggregator = "MockAggregator"
id_value lending_rate_oracle = "LendingRateOracle"
id_value vinium_oracle = "ViniumOracle"
id_value default_reserve_interest_rate_strategy = "DefaultReserveInterestRateStrategy"
id_value lending_pool_collateral_manager = "LendingPoolCollateralManager"
id_value initializable_admin_upgradeability_proxy = "InitializableAdminUpgradeabilityProxy"
id_value mock_flash_loan_receiver = "MockFlashLoanReceiver"
id_value wallet_balance_provider = "WalletBalanceProvider"
id_value vi_token = "ViToken"
id_value mock_vi_token = "MockViToken"
id_value delegation_aware_vi_token = "DelegationAwareViToken"
id_value mock_stable_vd_token = "MockStableVdToken"
id_value mock_variable_vd_token = "MockVariableVdToken"
id_value vinium_protocol_data_provider = "ViniumProtocolDataProvider"
id_value i_erc20_detailed = "IERC20Detailed"
id_value stable_vd_token = "StableVdToken"
id_value variable_vd_token = "VariableVdToken"
id_value fee_provider = "FeeProvider"
id_value token_distributor = "TokenDistributor"
id_value stable_and_variable_tokens_helper = "StableAndVariableTokensHelper"
id_value vi_tokens_and_rates_helper = "ViTokensAndRatesHelper"
id_value ui_pool_data_provider = "UiPoolDataProvider"
id_value ui_pool_data_provider_v2 = "UiPoolDataProviderV2"
id_value ui_pool_data_provider_v2_v3 = "UiPoolDataProviderV2V3"
id_value weth_gateway = "WETHGateway"
id_value weth = "WETH"
id_value weth_mocked = "WETHMocked"
id_value selfdestruct_transfer_mock = "SelfdestructTransferMock"
id_value lending_pool_impl = "LendingPoolImpl"
id_value lending_pool_configurator_impl = "LendingPoolConfiguratorImpl"
id_value lending_pool_collateral_manager_impl = "LendingPoolCollateralManagerImpl"
id_value mock_uniswap_v2_router02 = "MockUniswapV2Router02"
id_value uniswap_liquidity_swap_adapter = "UniswapLiquiditySwapAdapter"
id_value uniswap_repay_adapter = "UniswapRepayAdapter"
id_value flash_liquidation_adapter = "FlashLiquidationAdapter"
id_value mock_para_swap_augustus = "MockParaSwapAugustus"
id_value mock_para_swap_augustus_registry = "MockParaSwapAugustusRegistry"
id_value para_swap_liquidity_swap_adapter = "ParaSwapLiquiditySwapAdapter"
id_value ui_incentive_data_provider_v2_v3 = "UiIncentiveDataProviderV2V3"
id_value ui_incentive_data_provider_v2 = "UiIncentiveDataProviderV2"

-- The member with a text.
pub id_of : String → Option EContractId
id_of s =
    if s == "Example"
    then some example
    else if s == "LendingPoolAddressesProvider"
    then some lending_pool_addresses_provider
    else if s == "MintableERC20"
    then some mintable_erc20
    else if s == "MintableDelegationERC20"
    then some mintable_delegation_erc20
    else if s == "LendingPoolAddressesProviderRegistry"
    then some lending_pool_addresses_provider_registry
    else if s == "LendingPoolParametersProvider"
    then some lending_pool_parameters_provider
    else if s == "LendingPoolConfigurator"
    then some lending_pool_configurator
    else if s == "ValidationLogic"
    then some validation_logic
    else if s == "ReserveLogic"
    then some reserve_logic
    else if s == "GenericLogic"
    then some generic_logic
    else if s == "LendingPool"
    then some lending_pool
    else if s == "PriceOracle"
    then some price_oracle
    else if s == "Proxy"
    then some proxy
    else if s == "MockAggregator"
    then some mock_aggregator
    else if s == "LendingRateOracle"
    then some lending_rate_oracle
    else if s == "ViniumOracle"
    then some vinium_oracle
    else if s == "DefaultReserveInterestRateStrategy"
    then some default_reserve_interest_rate_strategy
    else if s == "LendingPoolCollateralManager"
    then some lending_pool_collateral_manager
    else if s == "InitializableAdminUpgradeabilityProxy"
    then some initializable_admin_upgradeability_proxy
    else if s == "MockFlashLoanReceiver"
    then some mock_flash_loan_receiver
    else if s == "WalletBalanceProvider"
    then some wallet_balance_provider
    else if s == "ViToken"
    then some vi_token
    else if s == "MockViToken"
    then some mock_vi_token
    else if s == "DelegationAwareViToken"
    then some delegation_aware_vi_token
    else if s == "MockStableVdToken"
    then some mock_stable_vd_token
    else if s == "MockVariableVdToken"
    then some mock_variable_vd_token
    else if s == "ViniumProtocolDataProvider"
    then some vinium_protocol_data_provider
    else if s == "IERC20Detailed"
    then some i_erc20_detailed
    else if s == "StableVdToken"
    then some stable_vd_token
    else if s == "VariableVdToken"
    then some variable_vd_token
    else if s == "FeeProvider"
    then some fee_provider
    else if s == "TokenDistributor"
    then some token_distributor
    else if s == "StableAndVariableTokensHelper"
    then some stable_and_variable_tokens_helper
    else if s == "ViTokensAndRatesHelper"
    then some vi_tokens_and_rates_helper
    else if s == "UiPoolDataProvider"
    then some ui_pool_data_provider
    else if s == "UiPoolDataProviderV2"
    then some ui_pool_data_provider_v2
    else if s == "UiPoolDataProviderV2V3"
    then some ui_pool_data_provider_v2_v3
    else if s == "WETHGateway"
    then some weth_gateway
    else if s == "WETH"
    then some weth
    else if s == "WETHMocked"
    then some weth_mocked
    else if s == "SelfdestructTransferMock"
    then some selfdestruct_transfer_mock
    else if s == "LendingPoolImpl"
    then some lending_pool_impl
    else if s == "LendingPoolConfiguratorImpl"
    then some lending_pool_configurator_impl
    else if s == "LendingPoolCollateralManagerImpl"
    then some lending_pool_collateral_manager_impl
    else if s == "MockUniswapV2Router02"
    then some mock_uniswap_v2_router02
    else if s == "UniswapLiquiditySwapAdapter"
    then some uniswap_liquidity_swap_adapter
    else if s == "UniswapRepayAdapter"
    then some uniswap_repay_adapter
    else if s == "FlashLiquidationAdapter"
    then some flash_liquidation_adapter
    else if s == "MockParaSwapAugustus"
    then some mock_para_swap_augustus
    else if s == "MockParaSwapAugustusRegistry"
    then some mock_para_swap_augustus_registry
    else if s == "ParaSwapLiquiditySwapAdapter"
    then some para_swap_liquidity_swap_adapter
    else if s == "UiIncentiveDataProviderV2V3"
    then some ui_incentive_data_provider_v2_v3
    else if s == "UiIncentiveDataProviderV2"
    then some ui_incentive_data_provider_v2
    else none

-- Reading a member's text gives the member back: no two members share a record.
pub id_of-id_value : (id : EContractId) → id_of (id_value id) ≡ some id
unfolding id_of id_value
id_of-id_value example = refl
id_of-id_value lending_pool_addresses_provider = refl
id_of-id_value mintable_erc20 = refl
id_of-id_value mintable_delegation_erc20 = refl
id_of-id_value lending_pool_addresses_provider_registry = refl
id_of-id_value lending_pool_parameters_provider = refl
id_of-id_value lending_pool_configurator = refl
id_of-id_value validation_logic = refl
id_of-id_value reserve_logic = refl
id_of-id_value generic_logic = refl
id_of-id_value lending_pool = refl
id_of-id_value price_oracle = refl
id_of-id_value proxy = refl
id_of-id_value mock_aggregator = refl
id_of-id_value lending_rate_oracle = refl
id_of-id_value vinium_oracle = refl
id_of-id_value default_reserve_interest_rate_strategy = refl
id_of-id_value lending_pool_collateral_manager = refl
id_of-id_value initializable_admin_upgradeability_proxy = refl
id_of-id_value mock_flash_loan_receiver = refl
id_of-id_value wallet_balance_provider = refl
id_of-id_value vi_token = refl
id_of-id_value mock_vi_token = refl
id_of-id_value delegation_aware_vi_token = refl
id_of-id_value mock_stable_vd_token = refl
id_of-id_value mock_variable_vd_token = refl
id_of-id_value vinium_protocol_data_provider = refl
id_of-id_value i_erc20_detailed = refl
id_of-id_value stable_vd_token = refl
id_of-id_value variable_vd_token = refl
id_of-id_value fee_provider = refl
id_of-id_value token_distributor = refl
id_of-id_value stable_and_variable_tokens_helper = refl
id_of-id_value vi_tokens_and_rates_helper = refl
id_of-id_value ui_pool_data_provider = refl
id_of-id_value ui_pool_data_provider_v2 = refl
id_of-id_value ui_pool_data_provider_v2_v3 = refl
id_of-id_value weth_gateway = refl
id_of-id_value weth = refl
id_of-id_value weth_mocked = refl
id_of-id_value selfdestruct_transfer_mock = refl
id_of-id_value lending_pool_impl = refl
id_of-id_value lending_pool_configurator_impl = refl
id_of-id_value lending_pool_collateral_manager_impl = refl
id_of-id_value mock_uniswap_v2_router02 = refl
id_of-id_value uniswap_liquidity_swap_adapter = refl
id_of-id_value uniswap_repay_adapter = refl
id_of-id_value flash_liquidation_adapter = refl
id_of-id_value mock_para_swap_augustus = refl
id_of-id_value mock_para_swap_augustus_registry = refl
id_of-id_value para_swap_liquidity_swap_adapter = refl
id_of-id_value ui_incentive_data_provider_v2_v3 = refl
id_of-id_value ui_incentive_data_provider_v2 = refl
