-- ===== src/ContractsGetters.antt =====
-- helpers/contracts-getters.ts: the instances of the deployed contracts, by an address or by their
-- record in deployed-contracts.json. A getter whose source reads `address || …` is
-- `connect_or_db`. `getMockedTokens` and `getAllMockedTokens` stand in MockTokens.
pub mod Pairs
pub mod Adds
pub mod Database
use vinium_lending.Prelude.{
  ℕ, zero, suc, String, Bool, true, false, Option, none, some, List, [], ◌∷◌, ◌++◌, map,
  if◌then◌else◌, ◌==◌, truthy, keys, Object, get_elem?,
}
use vinium_lending.Effects.{Env, DbEntry, M, pure, or_throw, type_error, db_value, ok, ◌>>=◌, ◌>>◌}
use vinium_lending.Types.ContractId.{
  id_value, lending_pool_addresses_provider, lending_pool_configurator, lending_pool, price_oracle,
  vi_token, stable_vd_token, variable_vd_token, mintable_erc20, i_erc20_detailed,
  vinium_protocol_data_provider, default_reserve_interest_rate_strategy, mock_flash_loan_receiver,
  lending_rate_oracle, reserve_logic, generic_logic, stable_and_variable_tokens_helper,
  vi_tokens_and_rates_helper, weth_gateway, weth_mocked, mock_vi_token, mock_variable_vd_token,
  mock_stable_vd_token, selfdestruct_transfer_mock, lending_pool_impl,
  lending_pool_configurator_impl, lending_pool_collateral_manager_impl, wallet_balance_provider,
  lending_pool_collateral_manager, vinium_oracle, mock_uniswap_v2_router02,
  uniswap_liquidity_swap_adapter, uniswap_repay_adapter, flash_liquidation_adapter,
  mock_para_swap_augustus, mock_para_swap_augustus_registry, para_swap_liquidity_swap_adapter,
  lending_pool_addresses_provider_registry,
}
use vinium_lending.Signers.{get_first_signer}
use vinium_lending.MiscUtils.{omit, not_falsy_or_zero_address}
use vinium_lending.ContractsHelpers.{Contract}

-- `Object.keys(o).findIndex((value) => value === symbol)`; `none` is -1.
unfoldable pub find_index : String → List String → Option ℕ
find_index symbol [] = none
find_index symbol (k ∷ ks) =
    if k == symbol
    then some 0
    else elim (find_index symbol ks) [ none ↦ none | some i ↦ some (suc i) ]

-- `const [, value] = Object.entries(o)[index]`; `none` is the TypeError on `undefined`.
abbrev pub entry_value {ℓ} : {V : Type ℓ} → Object V → Option ℕ → Option V
entry_value o none = none
entry_value o (some i) = elim (get_elem? o i) [ none ↦ none | some e ↦ some e.1 ]

unfoldable pub get_quote_currencies : String → List String
get_quote_currencies oracle_quote_currency =
    if oracle_quote_currency == "USD" then "USD" ∷ [] else "ETH" ∷ "WETH" ∷ []

-- The `reduce` of `getPairsTokenAggregator` over the entries left, with the pairs so far.
pairs_from : Object String → Object String → List (String × String) → List (String × String)
pairs_from aggregators [] acc = acc
pairs_from aggregators ((symbol, address) ∷ assets) acc =
    pairs_from aggregators assets
      (elim (entry_value aggregators (find_index symbol (keys aggregators))) [
        | none ↦ acc
        | some aggregator ↦ acc ++ (address, aggregator) ∷ []
      ])

unfoldable pub get_pairs_token_aggregator :
    Object String → Object String → String → List String × List String
unfolding pairs_from get_quote_currencies omit find_index
get_pairs_token_aggregator all_assets aggregators oracle_quote_currency =
    let pairs =
      pairs_from aggregators (omit all_assets (get_quote_currencies oracle_quote_currency)) [] in
    (map (λ p. p.0) pairs, map (λ p. p.1) pairs)

module _ (env : Env) where
  -- `(await getDb().get(`${id}.${DRE.network.name}`).value()).address`
  unfoldable pub db_address : String → M String
  db_address id = do found ← db_value env id; entry ← or_throw found type_error; pure entry.address

  unfoldable pub connect : (factory address : String) → M Contract
  connect factory address = do
    signer ← get_first_signer env
    pure (record { factory = factory; address = address; signer = signer })

  -- `Factory.connect(address || (await getDb()…).address, await getFirstSigner())`
  unfoldable pub connect_or_db : (factory id : String) → Option String → M Contract
  unfolding db_address connect
  connect_or_db factory id address = do
    target ← elim (truthy address) [ some given ↦ pure given | none ↦ db_address id ]
    connect factory target

  unfoldable pub get_address_by_id : String → M (Option String)
  get_address_by_id id = do
    found ← db_value env id
    pure (elim found [ none ↦ none | some entry ↦ truthy (some entry.address) ])

  unfoldable pub get_lending_pool_addresses_provider_registry : Option String → M Contract
  unfolding db_address connect not_falsy_or_zero_address
  get_lending_pool_addresses_provider_registry address = do
    target ← elim (not_falsy_or_zero_address env address) [
      | true ↦ or_throw address type_error
      | false ↦ db_address (id_value lending_pool_addresses_provider_registry)
    ]
    connect "LendingPoolAddressesProviderRegistry" target

  unfoldable pub get_proxy : String → M Contract
  unfolding connect
  get_proxy address = connect "InitializableAdminUpgradeabilityProxy" address

  unfoldable pub get_lending_pool_addresses_provider : Option String → M Contract
  unfolding connect_or_db
  get_lending_pool_addresses_provider =
      connect_or_db "LendingPoolAddressesProvider" (id_value lending_pool_addresses_provider)

  unfoldable pub get_lending_pool_configurator_proxy : Option String → M Contract
  unfolding connect_or_db
  get_lending_pool_configurator_proxy =
      connect_or_db "LendingPoolConfigurator" (id_value lending_pool_configurator)

  unfoldable pub get_lending_pool : Option String → M Contract
  unfolding connect_or_db
  get_lending_pool = connect_or_db "LendingPool" (id_value lending_pool)

  unfoldable pub get_price_oracle : Option String → M Contract
  unfolding connect_or_db
  get_price_oracle = connect_or_db "PriceOracle" (id_value price_oracle)

  unfoldable pub get_vi_token : Option String → M Contract
  unfolding connect_or_db
  get_vi_token = connect_or_db "ViToken" (id_value vi_token)

  unfoldable pub get_stable_vd_token : Option String → M Contract
  unfolding connect_or_db
  get_stable_vd_token = connect_or_db "StableVdToken" (id_value stable_vd_token)

  unfoldable pub get_variable_vd_token : Option String → M Contract
  unfolding connect_or_db
  get_variable_vd_token = connect_or_db "VariableVdToken" (id_value variable_vd_token)

  unfoldable pub get_mintable_erc20 : Option String → M Contract
  unfolding connect_or_db
  get_mintable_erc20 = connect_or_db "MintableERC20" (id_value mintable_erc20)

  unfoldable pub get_i_erc20_detailed : Option String → M Contract
  unfolding connect_or_db
  get_i_erc20_detailed = connect_or_db "IERC20Detailed" (id_value i_erc20_detailed)

  unfoldable pub get_vinium_protocol_data_provider : Option String → M Contract
  unfolding connect_or_db
  get_vinium_protocol_data_provider =
      connect_or_db "ViniumProtocolDataProvider" (id_value vinium_protocol_data_provider)

  unfoldable pub get_interest_rate_strategy : Option String → M Contract
  unfolding connect_or_db
  get_interest_rate_strategy =
      connect_or_db "DefaultReserveInterestRateStrategy"
        (id_value default_reserve_interest_rate_strategy)

  unfoldable pub get_mock_flash_loan_receiver : Option String → M Contract
  unfolding connect_or_db
  get_mock_flash_loan_receiver =
      connect_or_db "MockFlashLoanReceiver" (id_value mock_flash_loan_receiver)

  unfoldable pub get_lending_rate_oracle : Option String → M Contract
  unfolding connect_or_db
  get_lending_rate_oracle = connect_or_db "LendingRateOracle" (id_value lending_rate_oracle)

  unfoldable pub get_reserve_logic : Option String → M Contract
  unfolding connect_or_db
  get_reserve_logic = connect_or_db "ReserveLogic" (id_value reserve_logic)

  unfoldable pub get_generic_logic : Option String → M Contract
  unfolding connect_or_db
  get_generic_logic = connect_or_db "GenericLogic" (id_value generic_logic)

  unfoldable pub get_stable_and_variable_tokens_helper : Option String → M Contract
  unfolding connect_or_db
  get_stable_and_variable_tokens_helper =
      connect_or_db "StableAndVariableTokensHelper" (id_value stable_and_variable_tokens_helper)

  unfoldable pub get_vi_tokens_and_rates_helper : Option String → M Contract
  unfolding connect_or_db
  get_vi_tokens_and_rates_helper =
      connect_or_db "ViTokensAndRatesHelper" (id_value vi_tokens_and_rates_helper)

  unfoldable pub get_weth_gateway : Option String → M Contract
  unfolding connect_or_db
  get_weth_gateway = connect_or_db "WETHGateway" (id_value weth_gateway)

  unfoldable pub get_weth_mocked : Option String → M Contract
  unfolding connect_or_db
  get_weth_mocked = connect_or_db "WETH9Mocked" (id_value weth_mocked)

  unfoldable pub get_mock_vi_token : Option String → M Contract
  unfolding connect_or_db
  get_mock_vi_token = connect_or_db "MockViToken" (id_value mock_vi_token)

  unfoldable pub get_mock_variable_vd_token : Option String → M Contract
  unfolding connect_or_db
  get_mock_variable_vd_token = connect_or_db "MockVariableVdToken" (id_value mock_variable_vd_token)

  unfoldable pub get_mock_stable_vd_token : Option String → M Contract
  unfolding connect_or_db
  get_mock_stable_vd_token = connect_or_db "MockStableVdToken" (id_value mock_stable_vd_token)

  unfoldable pub get_selfdestruct_transfer_mock : Option String → M Contract
  unfolding connect_or_db
  get_selfdestruct_transfer_mock =
      connect_or_db "SelfdestructTransfer" (id_value selfdestruct_transfer_mock)

  unfoldable pub get_lending_pool_impl : Option String → M Contract
  unfolding connect_or_db
  get_lending_pool_impl = connect_or_db "LendingPool" (id_value lending_pool_impl)

  unfoldable pub get_lending_pool_configurator_impl : Option String → M Contract
  unfolding connect_or_db
  get_lending_pool_configurator_impl =
      connect_or_db "LendingPoolConfigurator" (id_value lending_pool_configurator_impl)

  unfoldable pub get_lending_pool_collateral_manager_impl : Option String → M Contract
  unfolding connect_or_db
  get_lending_pool_collateral_manager_impl =
      connect_or_db "LendingPoolCollateralManager" (id_value lending_pool_collateral_manager_impl)

  unfoldable pub get_wallet_provider : Option String → M Contract
  unfolding connect_or_db
  get_wallet_provider = connect_or_db "WalletBalanceProvider" (id_value wallet_balance_provider)

  unfoldable pub get_lending_pool_collateral_manager : Option String → M Contract
  unfolding connect_or_db
  get_lending_pool_collateral_manager =
      connect_or_db "LendingPoolCollateralManager" (id_value lending_pool_collateral_manager)

  unfoldable pub get_vinium_oracle : Option String → M Contract
  unfolding connect_or_db
  get_vinium_oracle = connect_or_db "ViniumOracle" (id_value vinium_oracle)

  unfoldable pub get_mock_uniswap_router : Option String → M Contract
  unfolding connect_or_db
  get_mock_uniswap_router =
      connect_or_db "MockUniswapV2Router02" (id_value mock_uniswap_v2_router02)

  unfoldable pub get_uniswap_liquidity_swap_adapter : Option String → M Contract
  unfolding connect_or_db
  get_uniswap_liquidity_swap_adapter =
      connect_or_db "UniswapLiquiditySwapAdapter" (id_value uniswap_liquidity_swap_adapter)

  unfoldable pub get_uniswap_repay_adapter : Option String → M Contract
  unfolding connect_or_db
  get_uniswap_repay_adapter = connect_or_db "UniswapRepayAdapter" (id_value uniswap_repay_adapter)

  unfoldable pub get_flash_liquidation_adapter : Option String → M Contract
  unfolding connect_or_db
  get_flash_liquidation_adapter =
      connect_or_db "FlashLiquidationAdapter" (id_value flash_liquidation_adapter)

  unfoldable pub get_mock_para_swap_augustus : Option String → M Contract
  unfolding connect_or_db
  get_mock_para_swap_augustus =
      connect_or_db "MockParaSwapAugustus" (id_value mock_para_swap_augustus)

  unfoldable pub get_mock_para_swap_augustus_registry : Option String → M Contract
  unfolding connect_or_db
  get_mock_para_swap_augustus_registry =
      connect_or_db "MockParaSwapAugustusRegistry" (id_value mock_para_swap_augustus_registry)

  unfoldable pub get_para_swap_liquidity_swap_adapter : Option String → M Contract
  unfolding connect_or_db
  get_para_swap_liquidity_swap_adapter =
      connect_or_db "ParaSwapLiquiditySwapAdapter" (id_value para_swap_liquidity_swap_adapter)
