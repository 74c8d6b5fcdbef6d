-- ===== src/Tests/Registrations.antt =====
-- The theorem on the registration of the oracles at a concrete input.
use vinium_lending.Prelude.{refl, false, none, some, []}
use vinium_lending.Effects.{Env, for_each, perform}
use vinium_lending.Effects.Ensures.{Ensures-ok}
use vinium_lending.Types.ContractId.{id_value}
use vinium_lending.MiscUtils.{
  chunk, filter_map_by, omit, not_falsy_or_zero_address, impersonate_accounts_hardhat, wait_for_tx,
}
use vinium_lending.Signers.{
  get_defender_relay_signer, get_ethers_signers, get_first_signer, using_defender, using_tenderly,
}
use vinium_lending.ContractsHelpers.{
  deploy_linked, get_param_per_network, network_key, register_contract_in_json_db, send,
  send_and_wait, with_save_and_verify,
}
use vinium_lending.ContractsGetters.{
  connect, connect_or_db, db_address, find_index, get_lending_pool_addresses_provider,
  get_lending_rate_oracle, get_pairs_token_aggregator, get_quote_currencies,
  get_stable_and_variable_tokens_helper, get_vinium_oracle,
}
use vinium_lending.ContractsDeployments.{
  deploy_and_save, deploy_lending_rate_oracle, deploy_vinium_oracle,
}
use vinium_lending.Configuration.{
  ConfigNames, current_network, load_pool_config, get_genesis_pool_admin, get_lending_rate_oracles,
  get_quote_currency, get_weth_address,
}
use vinium_lending.OraclesHelpers.{set_initial_market_rates_in_rates_oracle_by_helper}
use vinium_lending.Tasks.Oracles.{deploy_oracles}
use vinium_lending.Tasks.Registration.{RegistersOracles, deploy_oracles_registers}
use vinium_lending.Tests.World.{calm}

-- A test network, on which the market names no oracle, with a record under each id.
abbrev fuji : Env
fuji = record calm {
  network_name = "fuji";
  db_get = λ h id network. some (record { address = "0xd1"; deployer = none });
}

deploy_oracles_registers_example :
    RegistersOracles fuji ConfigNames.avalanche false []
      (deploy_oracles fuji ConfigNames.avalanche false []).1
unfolding deploy_oracles load_pool_config get_lending_rate_oracles filter_map_by
    get_lending_pool_addresses_provider connect_or_db db_address connect get_first_signer
    get_ethers_signers using_defender using_tenderly get_defender_relay_signer
    impersonate_accounts_hardhat get_genesis_pool_admin get_param_per_network network_key
    current_network get_pairs_token_aggregator get_quote_currencies omit find_index
    not_falsy_or_zero_address get_vinium_oracle get_lending_rate_oracle get_quote_currency
    get_weth_address deploy_vinium_oracle deploy_lending_rate_oracle deploy_and_save deploy_linked
    perform with_save_and_verify wait_for_tx register_contract_in_json_db id_value send
    send_and_wait for_each chunk set_initial_market_rates_in_rates_oracle_by_helper
    get_stable_and_variable_tokens_helper
deploy_oracles_registers_example =
    Ensures-ok tt _ (deploy_oracles_registers fuji ConfigNames.avalanche false []) refl
