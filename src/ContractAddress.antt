-- ===== src/ContractAddress.antt =====
-- `getContractAddressWithJsonFallback` of helpers/contracts-helpers.ts, and
-- `deployViTokenImplementations` of helpers/contracts-deployments.ts: both read a property of the
-- market's configuration whose name is a contract id.
pub mod Fallback
pub mod Adds
pub mod Returns
pub mod Implementations
use vinium_lending.Prelude.{
  String, Bool, true, false, not, Option, none, some, List, [], ◌∷◌, ◌++◌, if◌then◌else◌, ◌==◌,
  truthy, includes, Object,
}
use vinium_lending.Effects.{
  Env, DbEntry, M, pure, throw, missing_contract_address, missing_deployment_script, db_value, when,
  for_each, ◌>>=◌, ◌>>◌,
}
use vinium_lending.Types.ContractId.{id_value, vi_token, delegation_aware_vi_token}
use vinium_lending.Types.Config.{IParamsPerNetwork, IReserveParams, ICommonConfiguration}
use vinium_lending.MiscUtils.{not_falsy_or_zero_address}
use vinium_lending.ContractsHelpers.{get_optional_param_address_per_network}
use vinium_lending.ContractsDeployments.{
  deploy_generic_vi_token_impl, deploy_delegation_aware_vi_token_impl,
  deploy_generic_stable_vd_token, deploy_generic_variable_vd_token,
}
use vinium_lending.Configuration.{ConfigNames, load_pool_config}

-- `poolConfig[id]`, for the properties that hold an address per network; `none` is `undefined`.
unfoldable pub config_property : ICommonConfiguration → String → Option (IParamsPerNetwork String)
config_property c id =
    if id == "ProviderRegistry"
    then some c.provider_registry
    else if id == "ProviderRegistryOwner"
    then some c.provider_registry_owner
    else if id == "LendingPoolCollateralManager"
    then some c.lending_pool_collateral_manager
    else if id == "LendingPoolConfigurator"
    then some c.lending_pool_configurator
    else if id == "LendingPool"
    then some c.lending_pool
    else if id == "LendingRateOracle"
    then some c.lending_rate_oracle
    else if id == "TokenDistributor"
    then some c.token_distributor
    else if id == "ViniumOracle"
    then some c.vinium_oracle
    else if id == "FallbackOracle"
    then some c.fallback_oracle
    else if id == "PoolAdmin"
    then some c.pool_admin
    else if id == "EmergencyAdmin"
    then some c.emergency_admin
    else if id == "WETH"
    then some c.weth
    else if id == "WrappedNativeToken"
    then some c.wrapped_native_token
    else if id == "WethGateway"
    then some c.weth_gateway
    else if id == "ReserveFactorTreasuryAddress"
    then some c.reserve_factor_treasury_address
    else if id == "IncentivesController"
    then some c.incentives_controller
    else if id == "StableVdTokenImplementation"
    then c.stable_vd_token_implementation
    else if id == "VariableVdTokenImplementation"
    then c.variable_vd_token_implementation
    else none

module _ (env : Env) where
  -- The second half of the fallback: deployed-contracts.json.
  address_in_db : String → M String
  address_in_db id = do
    found ← db_value env id
    elim found [
      | none ↦ throw (missing_contract_address id)
      | some entry ↦
          if entry.address == "" then throw (missing_contract_address id) else pure entry.address
    ]

  abbrev pub given_or_in_db : String → Option String → M String
  given_or_in_db id none = throw (missing_contract_address id)
  given_or_in_db id (some address) = pure address

  unfoldable pub get_contract_address_with_json_fallback : String → ConfigNames → M String
  unfolding address_in_db
  get_contract_address_with_json_fallback id pool = do
    pool_config ← load_pool_config env pool
    let at_market =
        get_optional_param_address_per_network env (config_property pool_config id) env.network_name
    elim (not_falsy_or_zero_address env at_market) [
      | true ↦ given_or_in_db id at_market
      | false ↦ address_in_db id
    ]

  unfoldable pub choose_vi_token_deployment : String → Bool → M (Unit {0})
  choose_vi_token_deployment id verify =
      if id == id_value vi_token
      then deploy_generic_vi_token_impl env verify >> pure tt
      else if id == id_value delegation_aware_vi_token
      then deploy_delegation_aware_vi_token_impl env verify >> pure tt
      else throw (missing_deployment_script id)

  -- The `Set` of the implementations, in the order of their first use.
  pub implementations_from : List String → Object IReserveParams → List String
  implementations_from acc [] = acc
  implementations_from acc ((_, entry) ∷ reserves) =
      implementations_from
        (if includes acc entry.vi_token_impl then acc else acc ++ entry.vi_token_impl ∷ []) reserves

  -- Whether the market has no usable address for a parameter.
  abbrev is_missing : Option (IParamsPerNetwork String) → Bool
  is_missing param = not (
      not_falsy_or_zero_address env
        (get_optional_param_address_per_network env param env.network_name))

  unfoldable pub deploy_vi_token_implementations :
      ConfigNames → Object IReserveParams → Bool → M (Unit {0})
  unfolding choose_vi_token_deployment implementations_from
  deploy_vi_token_implementations pool reserves_config verify = do
    pool_config ← load_pool_config env pool
    for_each
        (λ id.
          when (is_missing (config_property pool_config id)) (choose_vi_token_deployment id verify))
        (implementations_from [] reserves_config)
    when (is_missing pool_config.stable_vd_token_implementation)
        (deploy_generic_stable_vd_token env verify >> pure tt)
    when (is_missing pool_config.variable_vd_token_implementation)
        (deploy_generic_variable_vd_token env verify >> pure tt)
