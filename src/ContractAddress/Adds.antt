-- ===== src/ContractAddress/Adds.antt =====
-- What the fallback to deployed-contracts.json and the deployment of the token implementations add to
-- the history.
use vinium_lending.Prelude.{String, Bool, ◌==◌, Option, none, some, Object}
use vinium_lending.Effects.{Env, Call, db_value, missing_contract_address}
use vinium_lending.Effects.Adds.{
  Adds, allows, adds_rules, Adds-bind, Adds-if, Adds-elim_bool, Adds-elim_option, Adds-pure,
  Adds-read, Adds-throw,
}
use vinium_lending.Types.Config.{IReserveParams}
use vinium_lending.Types.ContractId.{id_value, vi_token, delegation_aware_vi_token}
use vinium_lending.MiscUtils.{not_falsy_or_zero_address}
use vinium_lending.ContractsHelpers.{get_optional_param_address_per_network}
use vinium_lending.ContractsDeployments.{
  deploy_generic_vi_token_impl, deploy_delegation_aware_vi_token_impl,
  deploy_generic_stable_vd_token, deploy_generic_variable_vd_token,
}
use vinium_lending.ContractsDeployments.Adds.{deploy_and_save-Adds}
use vinium_lending.Configuration.{ConfigNames}
use vinium_lending.Configuration.Adds.{load_pool_config-Adds}
use vinium_lending.ContractAddress.{
  config_property, address_in_db, given_or_in_db, get_contract_address_with_json_fallback,
  choose_vi_token_deployment, deploy_vi_token_implementations,
}

module _ (env : Env) (q : Call → Bool) where
  given_or_in_db-Adds :
      (id : String) (address : Option String) → Adds (allows q) (given_or_in_db env id address)
  given_or_in_db-Adds id none = Adds-throw _
  given_or_in_db-Adds id (some address) = Adds-pure _

  address_in_db-Adds : (id : String) → Adds (allows q) (address_in_db env id)
  unfolding address_in_db
  address_in_db-Adds id =
      Adds-bind (db_value env id) _ (Adds-read (λ h. env.db_get h id env.network_name)) λ found.
        Adds-elim_option found _ _ (Adds-throw (missing_contract_address id)) λ entry.
          Adds-if (entry.address == "") _ _ (Adds-throw (missing_contract_address id))
            (Adds-pure entry.address)

  pub get_contract_address_with_json_fallback-Adds :
      (id : String) (pool : ConfigNames)
      → Adds (allows q) (get_contract_address_with_json_fallback env id pool)
  unfolding get_contract_address_with_json_fallback
  get_contract_address_with_json_fallback-Adds id pool =
      Adds-bind _ _ (load_pool_config-Adds env pool) λ config.
        let at_market =
          get_optional_param_address_per_network env (config_property config id) env.network_name in
        Adds-elim_bool (not_falsy_or_zero_address env at_market) _ _
          (given_or_in_db-Adds id at_market) (address_in_db-Adds id)

  pub choose_vi_token_deployment-Adds :
      (id : String) (verify : Bool) → Adds (allows q) (choose_vi_token_deployment env id verify)
  unfolding choose_vi_token_deployment deploy_generic_vi_token_impl
      deploy_delegation_aware_vi_token_impl
  choose_vi_token_deployment-Adds id verify =
      Adds-if (id == id_value vi_token) _ _ (search (adds_rules, deploy_and_save-Adds env q)) (
        Adds-if (id == id_value delegation_aware_vi_token) _ _
          (search (adds_rules, deploy_and_save-Adds env q)) (Adds-throw _))

  pub deploy_vi_token_implementations-Adds :
      (pool : ConfigNames) (reserves : Object IReserveParams) (verify : Bool)
      → Adds (allows q) (deploy_vi_token_implementations env pool reserves verify)
  unfolding deploy_vi_token_implementations deploy_generic_stable_vd_token
      deploy_generic_variable_vd_token
  deploy_vi_token_implementations-Adds pool reserves verify =
      search
        (
          adds_rules,
          load_pool_config-Adds env,
          choose_vi_token_deployment-Adds,
          deploy_and_save-Adds env q,
        )
        depth 9
