-- ===== src/Tasks/Deployments.antt =====
-- tasks/deployments/deploy-*.ts: the deployments of single contracts. The two data providers of the
-- second version take the address of a price aggregator from helpers/constants.ts; where there is
-- none, the deployment rejects it.
use vinium_lending.Prelude.{String, Bool, [], ◌∷◌, if◌then◌else◌, lookup, keys, includes, Object}
use vinium_lending.Effects.{
  Env, one, M, pure, throw, or_throw, rejected, invalid_chain_id, exited, type_error, when, ◌>>=◌,
  ◌>>◌,
}
use vinium_lending.Types.ContractId.{
  id_value, para_swap_liquidity_swap_adapter, uniswap_liquidity_swap_adapter, uniswap_repay_adapter,
}
use vinium_lending.Verification.{verify_contract}
use vinium_lending.MiscUtils.{wait_for_tx}
use vinium_lending.ContractsHelpers.{deploy}
use vinium_lending.ContractsDeployments.{
  deploy_ui_incentive_data_provider_v2, deploy_ui_incentive_data_provider_v2_v3,
  deploy_ui_pool_data_provider, deploy_ui_pool_data_provider_v2, deploy_ui_pool_data_provider_v2_v3,
}
use vinium_lending.Configuration.{current_network}
use vinium_lending.Tasks.Steps.{is_chain}

abbrev pub chainlink_aggregator_proxy : Object String
chainlink_aggregator_proxy =
    ("main", "0x5f4eC3Df9cbd43714FE2740f5E3616155c5b8419")
    ∷ ("kovan", "0x9326BFA02ADD2366b30bacB125260Af641031331")
    ∷ ("matic", "0xAB594600376Ec9fD91F8e885dADF0CE036862dE0")
    ∷ ("mumbai", "0xd0D5e3DB44DE05E9F294BB0a3bEEaF030DE24Ada")
    ∷ ("avalanche", "0x0A77230d17318075983913bC2145DB16C7366156")
    ∷ ("fuji", "0x5498BB86BC934c8D34FDA08E81D444153d0D06aD")
    ∷ ("tenderly", "0x5f4eC3Df9cbd43714FE2740f5E3616155c5b8419")
    ∷ ("arbitrum-rinkeby", "0x5f0423B1a6935dc5596e7A24d98532b67A0AeFd8")
    ∷ ("arbitrum", "0x639Fe6ab55C921f74e7fac1ee960C0B6293ba612")
    ∷ ("rinkeby", "0x8A753747A1Fa494EC906cE90E9f37563A8AF630e")
    ∷ ("goerli", "0x9F54B624fb17d07816C5552f8AB133c21b0322cD")
    ∷ []

abbrev pub chainlink_eth_usd_aggregator_proxy : Object String
chainlink_eth_usd_aggregator_proxy =
    ("main", "0x5f4eC3Df9cbd43714FE2740f5E3616155c5b8419")
    ∷ ("kovan", "0x9326BFA02ADD2366b30bacB125260Af641031331")
    ∷ ("matic", "0xF9680D99D6C9589e2a93a78A04A279e509205945")
    ∷ ("mumbai", "0x0715A7794a1dc8e42615F059dD6e406A6594651A")
    ∷ ("avalanche", "0x976B3D034E162d8bD72D6b9C989d545b839003b0")
    ∷ ("fuji", "0x86d67c3D38D2bCeE722E601025C25a575021c6EA")
    ∷ ("tenderly", "0x5f4eC3Df9cbd43714FE2740f5E3616155c5b8419")
    ∷ ("arbitrum-rinkeby", "0x5f0423B1a6935dc5596e7A24d98532b67A0AeFd8")
    ∷ ("arbitrum", "0x639Fe6ab55C921f74e7fac1ee960C0B6293ba612")
    ∷ ("rinkeby", "0x8A753747A1Fa494EC906cE90E9f37563A8AF630e")
    ∷ ("goerli", "0x9F54B624fb17d07816C5552f8AB133c21b0322cD")
    ∷ []

-- `addressesByNetwork`: the incentives controller and the oracle.
abbrev pub addresses_by_network : Object (String × String)
addresses_by_network =
    (
      "kovan",
      ("0x0000000000000000000000000000000000000000", "0x8fb777d67e9945e2c01936e319057f9d41d559e6"),
    )
    ∷ (
      "main",
      ("0xd784927Ff2f95ba542BfC824c8a8a98F3495f6b5", "0xa50ba011c48153de246e5192c8f9258a2ba79ca9"),
    )
    ∷ (
      "matic",
      ("0x357D51124f59836DeD84c8a1730D72B749d8BC23", "0x0229F777B0fAb107F9591a41d5F02E4e98dB6f2d"),
    )
    ∷ (
      "mumbai",
      ("0xd41aE58e803Edf4304334acCE4DC4Ec34a63C644", "0xC365C653f7229894F93994CD0b30947Ab69Ff1D5"),
    )
    ∷ (
      "fuji",
      ("0xa1EF206fb9a8D8186157FC817fCddcC47727ED55", "0xD217DdD9f0Af84644dEFe84a0b634621D4617a29"),
    )
    ∷ (
      "avalanche",
      ("0x01D83Fe6A10D2f2B7AF17034343746188272cAc9", "0xdC336Cd4769f4cC7E9d726DA53e6d3fC710cEB89"),
    )
    ∷ []

module _ (env : Env) where
  -- `if (!localBRE.network.config.chainId) { throw new Error('INVALID_CHAIN_ID'); }`, and the rest.
  abbrev pub on_chain : M (Unit {0}) → M (Unit {0})
  on_chain rest = if is_chain env.chain_id then rest else throw invalid_chain_id

  unfoldable pub deploy_para_swap_liquidity_swap_adapter_task :
      (provider augustus_registry : String) → Bool → M (Unit {0})
  deploy_para_swap_liquidity_swap_adapter_task provider augustus_registry verify = on_chain (do
    let args = one provider ∷ one augustus_registry ∷ []
    adapter ← deploy env "ParaSwapLiquiditySwapAdapter" args
    wait_for_tx env
    when verify
        (verify_contract env (id_value para_swap_liquidity_swap_adapter) adapter.address args))

  unfoldable pub deploy_uniswap_liquidity_swap_adapter_task :
      (provider router weth : String) → Bool → M (Unit {0})
  deploy_uniswap_liquidity_swap_adapter_task provider router weth verify = on_chain (do
    let args = one provider ∷ one router ∷ one weth ∷ []
    adapter ← deploy env "UniswapLiquiditySwapAdapter" args
    wait_for_tx env
    when verify
        (verify_contract env (id_value uniswap_liquidity_swap_adapter) adapter.address args))

  unfoldable pub deploy_uniswap_repay_adapter_task :
      (provider router weth : String) → Bool → M (Unit {0})
  deploy_uniswap_repay_adapter_task provider router weth verify = on_chain (do
    let args = one provider ∷ one router ∷ one weth ∷ []
    adapter ← deploy env "UniswapRepayAdapter" args
    wait_for_tx env
    when verify (verify_contract env (id_value uniswap_repay_adapter) adapter.address args))

  unfoldable pub deploy_ui_incentive_data_provider_v2_task : Bool → M (Unit {0})
  deploy_ui_incentive_data_provider_v2_task verify =
      on_chain (deploy_ui_incentive_data_provider_v2 env verify >> pure tt)

  unfoldable pub deploy_ui_incentive_data_provider_v2_v3_task : Bool → M (Unit {0})
  deploy_ui_incentive_data_provider_v2_v3_task verify =
      on_chain (deploy_ui_incentive_data_provider_v2_v3 env verify >> pure tt)

  unfoldable pub deploy_ui_pool_data_provider_task : Bool → M (Unit {0})
  deploy_ui_pool_data_provider_task verify = on_chain (
      if includes (keys addresses_by_network) env.network_name
      then (do
        (incentives_controller, oracle) ←
            or_throw (lookup env.network_name addresses_by_network) type_error
        deploy_ui_pool_data_provider env incentives_controller oracle verify >> pure tt)
      else throw (exited 2))

  unfoldable pub deploy_ui_pool_data_provider_v2_task : Bool → M (Unit {0})
  deploy_ui_pool_data_provider_v2_task verify = on_chain (do
    aggregator ← or_throw (lookup env.network_name chainlink_aggregator_proxy) rejected
    usd_aggregator ← or_throw (lookup env.network_name chainlink_eth_usd_aggregator_proxy) rejected
    deploy_ui_pool_data_provider_v2 env aggregator usd_aggregator verify >> pure tt)

  unfoldable pub deploy_ui_pool_data_provider_v2_v3_task : Bool → M (Unit {0})
  deploy_ui_pool_data_provider_v2_v3_task verify = on_chain (do
    let network = current_network env
    aggregator ← or_throw (lookup network chainlink_aggregator_proxy) rejected
    usd_aggregator ← or_throw (lookup network chainlink_eth_usd_aggregator_proxy) rejected
    deploy_ui_pool_data_provider_v2_v3 env aggregator usd_aggregator verify >> pure tt)
