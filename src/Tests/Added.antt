-- ===== src/Tests/Added.antt =====
-- The theorems on what the tasks add to the history at concrete inputs.
use vinium_lending.Prelude.{refl, false, none, some, [], ◌∷◌, ◌≡◌}
use vinium_lending.Effects.{Env, History, ok}
use vinium_lending.Effects.Adds.{Adds, allows}
use vinium_lending.Effects.Ensures.{Ensures-ok}
use vinium_lending.Configuration.{ConfigNames}
use vinium_lending.Tasks.Registry.{deploy_address_provider_registry, deploy_address_provider}
use vinium_lending.Tasks.LendingPool.{deploy_lending_pool_task}
use vinium_lending.Tasks.LendingPool.Live.{deploy_lending_pool_task_live}
use vinium_lending.Effects.Returns.{IsAnswering}
use vinium_lending.Tasks.Oracles.{deploy_oracles}
use vinium_lending.Tasks.Initialize.{
  deploy_data_provider, full_deploy_weth_gateway, initialize_lending_pool, add_new_tokens,
}
use vinium_lending.Tasks.Paused.{keeps_paused, full_tasks-Adds}
use vinium_lending.Tasks.Dev.{dev_initialize_lending_pool}
use vinium_lending.Tasks.Pause.{
  PausesConfigurator, UnpausesConfigurator, dev_initialize_lending_pool_unpauses,
}
use vinium_lending.Tasks.Verifications.{verify_tokens}
use vinium_lending.Tasks.Verifications.Adds.{only_verifies}
use vinium_lending.Tasks.Checks.{verify_tokens_only-Adds}
use vinium_lending.Tasks.NewAsset.{deploy_new_asset}
use vinium_lending.Tasks.NewAsset.Adds.{only_initializes, deploy_new_asset-Adds}
use vinium_lending.Tests.World.{calm}
use vinium_lending.Configuration.{current_network, get_treasury_address, load_pool_config}
use vinium_lending.ContractsGetters.{
  connect, connect_or_db, db_address, find_index, get_lending_pool,
  get_lending_pool_addresses_provider, get_lending_pool_configurator_proxy, get_mintable_erc20,
  get_vi_tokens_and_rates_helper, get_weth_gateway,
}
use vinium_lending.Signers.{
  get_defender_relay_signer, get_ethers_signers, get_first_signer, using_defender, using_tenderly,
}
use vinium_lending.Tasks.Steps.{reuse_or_deploy}
use vinium_lending.ContractsHelpers.{
  deploy_linked, get_optional_param_address_per_network, get_param_per_network,
  insert_contract_address_in_db, zero_address, network_key, raw_insert_contract_address_in_db,
  register_contract_in_json_db, send, send_and_wait, with_save_and_verify,
}
use vinium_lending.ContractsDeployments.{
  authorize_weth_gateway, deploy_and_save, deploy_default_reserve_interest_rate_strategy,
  deploy_lending_pool_collateral_manager, deploy_mock_flash_loan_receiver, deploy_rate_strategy,
  deploy_vinium_protocol_data_provider, deploy_wallet_balancer_provider,
}
use vinium_lending.Effects.{for_each, perform}
use vinium_lending.MiscUtils.{
  chunk, filter_map_by, impersonate_accounts_hardhat, not_falsy_or_zero_address, wait_for_tx,
}
use vinium_lending.ContractAddress.{config_property, get_contract_address_with_json_fallback}
use vinium_lending.Types.ContractId.{id_value}
use vinium_lending.Verification.{
  run_task_with_retry, verify_at_tenderly, verify_contract, verify_etherscan_contract,
}
use vinium_lending.MockTokens.{
  get_all_mocked_tokens, get_all_token_addresses, get_tokens, to_upper_case,
}
use vinium_lending.InitHelpers.{
  configure_reserves_by_helper, init_loop, init_reserves_by_helper, init_reserves_with,
}
use vinium_lending.Tasks.Dev.{proto_pool_reserves}

full_tasks-Adds_example :
    Adds (allows keeps_paused) (deploy_address_provider_registry calm ConfigNames.avalanche false)
    × Adds (allows keeps_paused) (deploy_address_provider calm ConfigNames.avalanche false false)
    × Adds (allows keeps_paused) (deploy_lending_pool_task calm ConfigNames.avalanche false)
    × Adds (allows keeps_paused) (deploy_oracles calm ConfigNames.avalanche false)
    × Adds (allows keeps_paused) (deploy_data_provider calm false)
    × Adds (allows keeps_paused) (full_deploy_weth_gateway calm ConfigNames.avalanche false)
    × Adds (allows keeps_paused) (initialize_lending_pool calm ConfigNames.avalanche false)
    × Adds (allows keeps_paused) (add_new_tokens calm ConfigNames.avalanche false)
full_tasks-Adds_example = full_tasks-Adds calm ConfigNames.avalanche false false

verify_tokens_only-Adds_example : Adds only_verifies (verify_tokens calm ConfigNames.avalanche)
verify_tokens_only-Adds_example = verify_tokens_only-Adds calm ConfigNames.avalanche

deploy_new_asset-Adds_example : Adds (allows only_initializes) (deploy_new_asset calm "WAVAX" false)
deploy_new_asset-Adds_example = deploy_new_asset-Adds calm "WAVAX" false

-- A world in which every record is there, and every contract is compiled.
abbrev everywhere : Env
everywhere = record calm {
  db_get = λ h id network. some (record { address = "0xd1"; deployer = none });
  read_artifact = λ buidler id. some (record { bytecode = []; link_references = [] });
}

everywhere-IsAnswering : IsAnswering everywhere
everywhere-IsAnswering = record {
  live = record { accepted = λ h a. refl; mined = λ h. refl };
  viewed = λ h address method args. (zero_address, refl, refl);
  compiled = λ buidler id. (record { bytecode = []; link_references = [] }, refl);
}

accounts : (h : History) → get_ethers_signers everywhere h ≡ (ok ("0xa1" ∷ "0xa2" ∷ []), h)
unfolding get_ethers_signers using_defender
accounts h = refl

deploy_lending_pool_task_live_example :
    (k : History) × (deploy_lending_pool_task everywhere ConfigNames.avalanche false []
      ≡ (ok tt, k))
    × PausesConfigurator everywhere ConfigNames.avalanche [] k
deploy_lending_pool_task_live_example =
    deploy_lending_pool_task_live everywhere everywhere-IsAnswering "0xa1" ("0xa2" ∷ []) accounts
      (λ h. (record { address = "0xd1"; deployer = none }, refl)) []

dev_initialize_lending_pool_unpauses_example :
    UnpausesConfigurator everywhere
      (dev_initialize_lending_pool everywhere ConfigNames.avalanche false []).1
unfolding dev_initialize_lending_pool load_pool_config get_all_mocked_tokens db_address
    get_mintable_erc20 get_first_signer get_lending_pool_addresses_provider
    deploy_vinium_protocol_data_provider deploy_and_save deploy_linked perform with_save_and_verify
    wait_for_tx register_contract_in_json_db insert_contract_address_in_db get_treasury_address
    get_param_per_network current_network config_property get_contract_address_with_json_fallback
    deploy_mock_flash_loan_receiver authorize_weth_gateway
    deploy_default_reserve_interest_rate_strategy deploy_lending_pool_collateral_manager
    deploy_rate_strategy deploy_wallet_balancer_provider connect connect_or_db find_index
    get_lending_pool get_lending_pool_configurator_proxy get_vi_tokens_and_rates_helper
    get_weth_gateway get_optional_param_address_per_network network_key
    raw_insert_contract_address_in_db send send_and_wait for_each configure_reserves_by_helper
    init_loop init_reserves_by_helper init_reserves_with chunk filter_map_by
    impersonate_accounts_hardhat not_falsy_or_zero_address get_all_token_addresses get_tokens
    to_upper_case get_defender_relay_signer get_ethers_signers using_defender using_tenderly
    proto_pool_reserves reuse_or_deploy id_value run_task_with_retry verify_at_tenderly
    verify_contract verify_etherscan_contract
dev_initialize_lending_pool_unpauses_example =
    Ensures-ok tt _
      ((dev_initialize_lending_pool_unpauses everywhere ConfigNames.avalanche false).at []) refl
