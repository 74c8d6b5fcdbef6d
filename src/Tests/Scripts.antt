-- ===== src/Tests/Scripts.antt =====
-- The theorems on deployments and reserves at concrete inputs.
use vinium_lending.Prelude.{
  String, ◌≡◌, refl, true, false, none, some, List, [], ◌∷◌, map, Object, All,
}
use vinium_lending.Effects.{
  Action, History, one, stored, sent, batch_init_reserve, ConfigureReserveInput, ok, err, rejected,
  Result, set_pool_admin, configure_reserves, db_value, perform, ◌>>◌,
}
use vinium_lending.Effects.Laws.{log_all}
use vinium_lending.Types.Config.{IReserveParams, IInterestRateStrategyParams}
use vinium_lending.Types.ContractId.{id_value, lending_pool, ui_pool_data_provider}
use vinium_lending.Signers.{get_first_signer}
use vinium_lending.MiscUtils.{wait_for_tx, not_falsy_or_zero_address}
use vinium_lending.ContractsHelpers.{
  Contract, send_and_wait, deploy_linked, with_save_and_verify, register_contract_in_json_db,
  raw_insert_contract_address_in_db, get_optional_param_address_per_network,
}
use vinium_lending.ContractsGetters.{
  get_lending_pool_addresses_provider, get_vi_tokens_and_rates_helper,
  get_lending_pool_configurator_proxy, get_lending_pool, connect_or_db,
}
use vinium_lending.ContractsDeployments.{
  deploy_and_save, deploy_rate_strategy, deploy_ui_pool_data_provider_v2,
  deploy_ui_pool_data_provider_v2_v3,
}
use vinium_lending.ContractsDeployments.Records.{
  instance_of, saved, connect_or_db-deploy_and_save, ui_pool_data_provider_overwritten,
}
use vinium_lending.ContractAddress.{config_property, get_contract_address_with_json_fallback}
use vinium_lending.ContractAddress.Fallback.{get_contract_address-deploy_and_save}
use vinium_lending.Configuration.{ConfigNames, load_pool_config}
use vinium_lending.InitHelpers.{
  InitSettings, InitState, init_loop, no_reserves, init_reserves_by_helper,
  configure_reserves_by_helper,
}
use vinium_lending.InitHelpers.Configure.{
  configured, handed_over, configure_reserves_by_helper_live, configure_reserves_by_helper_rejected,
}
use vinium_lending.InitHelpers.Init.{IsFrom, init_reserves_by_helper_live}
use vinium_lending.Verification.Retry.{IsFinished, run_task_with_retry-IsFinished}
use vinium_lending.Tests.World.{calm, strict, calm-IsLive, calm-IsDatabase}

-- A database with the records of the contracts that the scripts look up.
abbrev kept : String → String → Action
kept id address = stored id "avalanche" (record { address = address; deployer = none })

abbrev deployed_before : History
deployed_before =
    kept "LendingPoolAddressesProvider" "0x11"
    ∷ kept "ViTokensAndRatesHelper" "0x12"
    ∷ kept "LendingPoolConfigurator" "0x13"
    ∷ kept "ViToken" "0x14"
    ∷ kept "StableVdToken" "0x15"
    ∷ kept "VariableVdToken" "0x16"
    ∷ []

abbrev provider : Contract
provider = record { factory = "LendingPoolAddressesProvider"; address = "0x11"; signer = "0xa1" }

abbrev deployer : Contract
deployer = record { factory = "ViTokensAndRatesHelper"; address = "0x12"; signer = "0xa1" }

abbrev configurator : Contract
configurator = record { factory = "LendingPoolConfigurator"; address = "0x13"; signer = "0xa1" }

abbrev helpers : Contract
helpers = record { factory = "ViniumProtocolDataProvider"; address = "0x17"; signer = "0xa1" }

abbrev strategy : IInterestRateStrategyParams
strategy = record {
  name = "rateStrategyStableOne";
  optimal_utilization_rate = "8";
  base_variable_borrow_rate = "0";
  variable_rate_slope1 = "4";
  variable_rate_slope2 = "75";
  stable_rate_slope1 = "2";
  stable_rate_slope2 = "75";
}

abbrev usdc : IReserveParams
usdc = record {
  vi_token_impl = "ViToken";
  reserve_factor = "1000";
  strategy = strategy;
  borrowing_enabled = true;
  stable_borrow_rate_enabled = false;
  reserve_decimals = "6";
  base_ltv_as_collateral = "7500";
  liquidation_threshold = "8000";
  liquidation_bonus = "10500";
}

abbrev reserves : Object IReserveParams
reserves =
    ("USDC", usdc) ∷ ("DAI", usdc) ∷ ("GHO", record usdc { base_ltv_as_collateral = "-1" }) ∷ []

abbrev tokens : Object String
tokens = ("USDC", "0x21") ∷ ("GHO", "0x22") ∷ []

abbrev usdc_input : ConfigureReserveInput
usdc_input = record {
  asset = "0x21";
  base_ltv = "7500";
  liquidation_threshold = "8000";
  liquidation_bonus = "10500";
  reserve_factor = "1000";
  stable_borrowing_enabled = false;
  borrowing_enabled = true;
}

at_provider :
    get_lending_pool_addresses_provider calm none deployed_before ≡ (ok provider, deployed_before)
unfolding get_lending_pool_addresses_provider id_value get_first_signer
at_provider = refl

at_deployer :
    get_vi_tokens_and_rates_helper calm none deployed_before ≡ (ok deployer, deployed_before)
unfolding get_vi_tokens_and_rates_helper id_value get_first_signer
at_deployer = refl

first_signer : (h : History) → get_first_signer calm h ≡ (ok "0xa1", h)
unfolding get_first_signer
first_signer h = refl

configure_reserves_by_helper_live_example :
    configure_reserves_by_helper calm reserves tokens helpers "0xad" deployed_before
    ≡ (ok tt, configured provider deployer "0xad" (usdc_input ∷ []) deployed_before)
configure_reserves_by_helper_live_example =
    configure_reserves_by_helper_live calm reserves tokens helpers provider deployer "0xad"
      (λ _. false) deployed_before at_provider at_deployer (λ _. refl) calm-IsLive

connect_or_db-deploy_and_save_example :
    (deploy_and_save calm "LendingPool" (id_value lending_pool) [] false
        >> connect_or_db calm "LendingPool" (id_value lending_pool) none)
      []
    ≡ (
      ok (instance_of calm calm-IsLive "0xa1" first_signer "LendingPool" [] []),
      saved calm calm-IsLive "0xa1" first_signer "LendingPool" (id_value lending_pool) [] [],
    )
connect_or_db-deploy_and_save_example =
    connect_or_db-deploy_and_save calm calm-IsLive "0xa1" first_signer calm-IsDatabase "LendingPool"
      (id_value lending_pool) [] []

ui_pool_data_provider_overwritten_example :
    let args = one "0x31" ∷ one "0x32" ∷ [] in
    let id = id_value ui_pool_data_provider in
    let h2 = saved calm calm-IsLive "0xa1" first_signer "UiPoolDataProviderV2" id args [] in
    (deploy_ui_pool_data_provider_v2 calm "0x31" "0x32" false
        >> (deploy_ui_pool_data_provider_v2_v3 calm "0x31" "0x32" false >> db_value calm id))
      []
    ≡ (
      ok (some (record { address = "0xc1"; deployer = some "0xa1" })),
      saved calm calm-IsLive "0xa1" first_signer "UiPoolDataProviderV2V3" id args h2,
    )
ui_pool_data_provider_overwritten_example =
    ui_pool_data_provider_overwritten calm calm-IsLive "0xa1" first_signer calm-IsDatabase "0x31"
      "0x32" []

get_contract_address-deploy_and_save_example :
    (deploy_and_save calm "StableVdToken" "StableVdToken" [] false
        >> get_contract_address_with_json_fallback calm "StableVdToken" ConfigNames.avalanche)
      []
    ≡ (ok "0xc1", saved calm calm-IsLive "0xa1" first_signer "StableVdToken" "StableVdToken" [] [])
unfolding config_property
get_contract_address-deploy_and_save_example =
    get_contract_address-deploy_and_save calm calm-IsLive "0xa1" first_signer refl calm-IsDatabase
      "StableVdToken" "StableVdToken" [] [] refl refl

run_task_with_retry-IsFinished_example : IsFinished calm "0xc1" [] 4 true []
run_task_with_retry-IsFinished_example = run_task_with_retry-IsFinished calm "0xc1" [] 4 true []

strict-provider :
    get_lending_pool_addresses_provider strict none deployed_before ≡ (ok provider, deployed_before)
unfolding get_lending_pool_addresses_provider id_value get_first_signer
strict-provider = refl

strict-deployer :
    get_vi_tokens_and_rates_helper strict none deployed_before ≡ (ok deployer, deployed_before)
unfolding get_vi_tokens_and_rates_helper id_value get_first_signer
strict-deployer = refl

handover_accepted :
    send_and_wait strict provider (set_pool_admin "0x12") deployed_before
    ≡ (ok tt, handed_over provider deployer deployed_before)
unfolding send_and_wait perform wait_for_tx
handover_accepted = refl

configuration_refused :
    (c : List ConfigureReserveInput)
    → send_and_wait strict deployer
        (configure_reserves c)
        (handed_over provider deployer deployed_before)
      ≡ (err rejected, handed_over provider deployer deployed_before)
unfolding send_and_wait perform
configuration_refused c = refl

configure_reserves_by_helper_rejected_example :
    configure_reserves_by_helper strict reserves tokens helpers "0xad" deployed_before
    ≡ (err rejected, handed_over provider deployer deployed_before)
configure_reserves_by_helper_rejected_example =
    configure_reserves_by_helper_rejected strict reserves tokens helpers provider deployer "0xad"
      (λ _. false) deployed_before strict-provider strict-deployer (λ _. refl) usdc_input [] refl
      handover_accepted configuration_refused

abbrev settings : InitSettings
settings = record {
  vi_token_name_prefix = "Vinium Avalanche Market";
  stable_vd_token_name_prefix = "Vinium Avalanche Market stable debt";
  variable_vd_token_name_prefix = "Vinium Avalanche Market variable debt";
  treasury_address = "0x41";
  incentives_controller = "0x42";
  pool_name = ConfigNames.avalanche;
  verify = false;
}

abbrev pool_before : History
pool_before = kept "LendingPool" "0x18" ∷ deployed_before

init_at_provider :
    get_lending_pool_addresses_provider calm none pool_before ≡ (ok provider, pool_before)
unfolding get_lending_pool_addresses_provider id_value get_first_signer
init_at_provider = refl

-- What the loop returns.
abbrev loop_result : Result InitState × History
loop_result = init_loop calm settings provider tokens reserves no_reserves pool_before

abbrev state_of : Result InitState → InitState
state_of (ok st) = st
state_of (err e) = no_reserves

at_loop : loop_result ≡ (ok (state_of loop_result.0), loop_result.1)
unfolding init_loop get_lending_pool get_first_signer deploy_rate_strategy deploy_and_save
    deploy_linked perform with_save_and_verify wait_for_tx register_contract_in_json_db
    raw_insert_contract_address_in_db get_contract_address_with_json_fallback load_pool_config
    not_falsy_or_zero_address get_optional_param_address_per_network config_property id_value
at_loop = refl

at_configurator :
    get_lending_pool_configurator_proxy calm none loop_result.1 ≡ (ok configurator, loop_result.1)
unfolding get_lending_pool_configurator_proxy init_loop get_lending_pool get_first_signer
    deploy_rate_strategy deploy_and_save deploy_linked perform with_save_and_verify wait_for_tx
    register_contract_in_json_db raw_insert_contract_address_in_db
    get_contract_address_with_json_fallback load_pool_config not_falsy_or_zero_address
    get_optional_param_address_per_network config_property id_value
at_configurator = refl

init_reserves_by_helper_live_example :
    (init_reserves_by_helper calm settings reserves tokens pool_before ≡ (
      ok tt,
      log_all
          (λ inputs. sent "0xa1" "0x13" (batch_init_reserve inputs))
          (map (λ i. i ∷ []) (state_of loop_result.0).init_input_params)
          loop_result.1,
    ))
    × All (IsFrom calm provider settings tokens reserves) (state_of loop_result.0).init_input_params
init_reserves_by_helper_live_example =
    init_reserves_by_helper_live calm settings reserves tokens provider configurator
      (state_of loop_result.0) pool_before loop_result.1 init_at_provider at_loop at_configurator
      calm-IsLive
