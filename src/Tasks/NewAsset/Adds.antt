-- ===== src/Tasks/NewAsset/Adds.antt =====
-- What `external:deploy-new-asset` adds to the history.
use vinium_lending.Prelude.{
  String, Bool, true, false, refl, ◌||◌, ◌==◌, Option, none, some, includes, keys, cat, lookup,
  Object,
}
use vinium_lending.Effects.{
  Env, Call, initialize, or_throw, type_error, wrong_reserve_asset_setup, missing_deployment_script,
}
use vinium_lending.Effects.Adds.{
  Adds, allows, adds_rules, Adds-bind, Adds-if, Adds-or_throw, Adds-pure, Adds-throw,
}
use vinium_lending.Types.ContractId.{id_value, vi_token, delegation_aware_vi_token}
use vinium_lending.Markets.{avalanche_config}
use vinium_lending.ContractsHelpers.Adds.{allows-Requests}
use vinium_lending.ContractsGetters.Adds.{getter_rules}
use vinium_lending.ContractsDeployments.{deploy_default_reserve_interest_rate_strategy}
use vinium_lending.ContractsDeployments.Adds.{
  deploy_and_save-Adds, deploy_stable_vd_token-Adds, deploy_variable_vd_token-Adds,
}
use vinium_lending.ContractAddress.Adds.{choose_vi_token_deployment-Adds}
use vinium_lending.Tasks.NewAsset.{
  reserve_configs, is_listed_symbol, is_symbol_valid, check_vi_token_deployment, new_asset_steps,
  deploy_new_asset,
}

-- The only transactions are initialisations of the new contracts.
abbrev pub only_initializes : Call → Bool
only_initializes (initialize _) = true
only_initializes _ = false

module _ (env : Env) where
  is_listed_symbol-Adds :
      (assets : Option (Object String)) (symbol : String)
      → Adds (allows only_initializes) (is_listed_symbol env assets symbol)
  unfolding is_listed_symbol
  is_listed_symbol-Adds none symbol = Adds-throw type_error
  is_listed_symbol-Adds (some assets) symbol = Adds-pure _

  is_symbol_valid-Adds :
      (symbol network : String)
      → Adds (allows only_initializes) (is_symbol_valid env symbol network)
  unfolding is_symbol_valid
  is_symbol_valid-Adds symbol network =
      Adds-if (includes (keys (reserve_configs env)) (cat "strategy" symbol)) _ _
        (is_listed_symbol-Adds (lookup network (avalanche_config env.decimals).reserve_assets)
          symbol)
        (Adds-pure false)

  check_vi_token_deployment-Adds :
      (id : String) → Adds (allows only_initializes) (check_vi_token_deployment env id)
  unfolding check_vi_token_deployment
  check_vi_token_deployment-Adds id =
      Adds-if (id == id_value vi_token || id == id_value delegation_aware_vi_token) _ _
        (Adds-pure tt) (Adds-throw (missing_deployment_script id))

  new_asset_steps-Adds :
      (symbol : String) (verify : Bool)
      → Adds (allows only_initializes) (new_asset_steps env symbol verify)
  unfolding new_asset_steps deploy_default_reserve_interest_rate_strategy
  new_asset_steps-Adds symbol verify =
      Adds-bind (or_throw (lookup (cat "strategy" symbol) (reserve_configs env)) type_error) _
        (Adds-or_throw _ _)
        λ params.
          Adds-bind
            (or_throw (lookup env.network_name (avalanche_config env.decimals).reserve_assets)
              type_error)
            _ (Adds-or_throw _ _)
            λ assets.
              Adds-bind (or_throw (lookup symbol assets) type_error) _ (Adds-or_throw _ _) λ asset.
                search
                  (
                    adds_rules,
                    getter_rules,
                    allows-Requests,
                    check_vi_token_deployment-Adds,
                    choose_vi_token_deployment-Adds env only_initializes,
                    deploy_stable_vd_token-Adds env only_initializes (λ args. refl),
                    deploy_variable_vd_token-Adds env only_initializes (λ args. refl),
                    deploy_and_save-Adds env only_initializes,
                  )
                  depth 15

  -- Whether it returns or throws, and for any symbol, the deployment of a new asset only adds to the
  -- history, and the only transactions that it adds initialise contracts: no admin, oracle, pool or
  -- reserve is set.
  pub deploy_new_asset-Adds :
      (symbol : String) (verify : Bool)
      → Adds (allows only_initializes) (deploy_new_asset env symbol verify)
  unfolding deploy_new_asset
  deploy_new_asset-Adds symbol verify =
      Adds-bind _ _ (is_symbol_valid-Adds symbol env.network_name) λ valid.
        Adds-if valid _ _ (new_asset_steps-Adds symbol verify)
          (Adds-throw (wrong_reserve_asset_setup symbol env.network_name))
