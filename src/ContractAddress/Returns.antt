-- ===== src/ContractAddress/Returns.antt =====
-- The deployment of the token implementations in a world that answers.
use vinium_lending.Prelude.{String, Bool, ◌≡◌, refl, false, [], ◌∷◌}
use vinium_lending.Effects.{Env, History, M, ok, pure, when, for_each, ◌>>=◌, ◌>>◌}
use vinium_lending.Effects.Returns.{
  IsAnswering, Returns, returns_rules, Returns-bind, Returns-when, Returns-known, Returns-pure,
}
use vinium_lending.Types.Config.{ICommonConfiguration}
use vinium_lending.Types.ContractId.{id_value, vi_token}
use vinium_lending.Markets.{avalanche_config}
use vinium_lending.Signers.{get_first_signer}
use vinium_lending.ContractsDeployments.{
  deploy_and_save, deploy_generic_vi_token_impl, deploy_generic_stable_vd_token,
  deploy_generic_variable_vd_token,
}
use vinium_lending.ContractsDeployments.Returns.{deploy_and_save-Returns}
use vinium_lending.Configuration.{ConfigNames, load_pool_config}
use vinium_lending.ContractAddress.{
  choose_vi_token_deployment, implementations_from, deploy_vi_token_implementations,
}

module _ (env : Env) (answering : IsAnswering env) (signer : String)
    (first : (h : History) → get_first_signer env h ≡ (ok signer, h)) where
  abbrev record_and_return : (factory id : String) → M (Unit {0})
  record_and_return factory id = deploy_and_save env factory id [] false >> pure tt

  choose_vi_token-Returns : Returns (choose_vi_token_deployment env (id_value vi_token) false)
  unfolding choose_vi_token_deployment deploy_generic_vi_token_impl id_value
  choose_vi_token-Returns =
      Returns-bind _ _ (deploy_and_save-Returns env answering signer first _ _ _)
        λ _. Returns-pure tt

  -- The reserves of the market share the implementation ViToken.
  one_implementation :
      implementations_from env [] (avalanche_config env.decimals).reserves_config
      ≡ id_value vi_token ∷ []
  unfolding implementations_from id_value
  one_implementation = refl

  choices-Returns :
      (b : String → Bool)
      → Returns (
          for_each
            (λ id. when (b id) (choose_vi_token_deployment env id false))
            (implementations_from env [] (avalanche_config env.decimals).reserves_config))
  unfolding for_each
  choices-Returns b = rw one_implementation (
      Returns-bind _ _ (Returns-when (b (id_value vi_token)) _ choose_vi_token-Returns)
        λ _. Returns-pure tt)

  -- The market is supported.
  pub at_avalanche :
      {A : Type 0} (f : ICommonConfiguration → M A)
      → Returns (f (avalanche_config env.decimals))
      → Returns (load_pool_config env ConfigNames.avalanche >>= f)
  unfolding load_pool_config
  at_avalanche f next = Returns-known _ f (avalanche_config env.decimals) (λ h. refl) next

  pub deploy_vi_token_implementations-Returns : Returns (
      deploy_vi_token_implementations env ConfigNames.avalanche
        (avalanche_config env.decimals).reserves_config
        false)
  unfolding deploy_vi_token_implementations deploy_generic_stable_vd_token
      deploy_generic_variable_vd_token
  deploy_vi_token_implementations-Returns = at_avalanche _ (
      Returns-bind _ _ (choices-Returns _)
        λ _. search (returns_rules, deploy_and_save-Returns env answering signer first) depth 10)
