-- ===== src/Tasks/LendingPool/Live.antt =====
-- `full:deploy-lending-pool` in a world that answers.
use vinium_lending.Prelude.{String, false, ◌≡◌, Option, none, some, List, [], ◌∷◌}
use vinium_lending.Effects.{Env, DbEntry, History, M, ok, ask, ◌>>=◌, or_throw, rejected}
use vinium_lending.Effects.Ensures.{Ensures-ok}
use vinium_lending.Effects.Returns.{
  IsAnswering, Returns, returned_at, Returns-view, returns_rules, Returns-bind, Returns-known,
  Returns-pure, Returns-if,
}
use vinium_lending.Types.ContractId.{id_value, lending_pool_addresses_provider}
use vinium_lending.MiscUtils.{not_falsy_or_zero_address}
use vinium_lending.Markets.{avalanche_config}
use vinium_lending.Signers.{get_ethers_signers, get_first_signer}
use vinium_lending.ContractsHelpers.{Contract}
use vinium_lending.ContractsGetters.{
  get_lending_pool, get_lending_pool_addresses_provider, get_lending_pool_configurator_proxy,
}
use vinium_lending.ContractsDeployments.{
  deploy_stable_and_variable_tokens_helper, deploy_vi_tokens_and_rates_helper,
}
use vinium_lending.ContractsDeployments.Returns.{
  send-Returns, send_and_wait-Returns, insert_contract_address_in_db-Returns,
  deploy_and_save-Returns, deploy_lending_pool-Returns, deploy_lending_pool_configurator-Returns,
  db-Returns, given-Returns,
}
use vinium_lending.Configuration.{ConfigNames, get_emergency_admin}
use vinium_lending.ContractAddress.Returns.{at_avalanche, deploy_vi_token_implementations-Returns}
use vinium_lending.Tasks.Steps.{reuse_or_deploy}
use vinium_lending.Tasks.LendingPool.{
  pool_implementation, configurator_implementation, deploy_lending_pool_task,
}
use vinium_lending.Tasks.Outcomes.{first_of_signers, emergency_admin_of_avalanche}
use vinium_lending.Tasks.Pause.{PausesConfigurator, deploy_lending_pool_task_pauses}

module _ (env : Env) (answering : IsAnswering env) (signer : String) (others : List String)
    (signers : (h : History) → get_ethers_signers env h ≡ (ok (signer ∷ others), h)) where
  abbrev first : (h : History) → get_first_signer env h ≡ (ok signer, h)
  first = first_of_signers env signer others signers

  reuse_or_deploy-Returns :
      (address : Option String) (deployment : M String)
      → Returns deployment
      → Returns (reuse_or_deploy env address deployment)
  unfolding reuse_or_deploy not_falsy_or_zero_address
  reuse_or_deploy-Returns none deployment fresh = fresh
  reuse_or_deploy-Returns (some address) deployment fresh =
      Returns-if (not_falsy_or_zero_address env (some address)) _ _ (Returns-pure address) fresh

  pool_implementation-Returns :
      (provider : Contract) → Returns (pool_implementation env provider false)
  unfolding pool_implementation
  pool_implementation-Returns provider =
      Returns-bind _ _ (deploy_lending_pool-Returns env answering signer first) λ impl.
        Returns-bind _ _ (send-Returns env answering signer first _ _)
          λ _. Returns-pure impl.address

  configurator_implementation-Returns : Returns (configurator_implementation env false)
  unfolding configurator_implementation
  configurator_implementation-Returns =
      search (returns_rules, deploy_lending_pool_configurator-Returns env answering signer first)

  module _
      (recorded : (h : History)
        → (e : DbEntry) × (env.db_get h (id_value lending_pool_addresses_provider) env.network_name
            ≡ some e)) where
    -- The market names no emergency admin: it is the first account.
    at_emergency_admin :
        {A : Type 0} (f : String → M A)
        → Returns (f signer)
        → Returns (
            get_emergency_admin env (avalanche_config env.decimals) >>= λ admin.
            or_throw admin rejected >>= f)
    at_emergency_admin f next =
        Returns-known _ (λ admin. or_throw admin rejected >>= f) (some signer)
          (emergency_admin_of_avalanche env signer others signers) next

    provider-Returns : Returns (get_lending_pool_addresses_provider env none)
    unfolding get_lending_pool_addresses_provider
    provider-Returns = db-Returns env answering signer first _ _ recorded

    -- A proxy at the address that a view call tells.
    at_pool :
        {A : Type 0} (provider method : String) (f : Contract → M A)
        → ((c : Contract) → Returns (f c))
        → Returns (
            ask env (λ h. env.view_text h provider method []) >>= λ address.
            get_lending_pool env (some address) >>= f)
    unfolding get_lending_pool
    at_pool provider method f next = Returns-view env answering _ _ _ λ address given.
        Returns-bind _ f (given-Returns env answering signer first _ _ address given) next

    at_configurator :
        {A : Type 0} (provider method : String) (f : Contract → M A)
        → ((c : Contract) → Returns (f c))
        → Returns (
            ask env (λ h. env.view_text h provider method []) >>= λ address.
            get_lending_pool_configurator_proxy env (some address) >>= f)
    unfolding get_lending_pool_configurator_proxy
    at_configurator provider method f next = Returns-view env answering _ _ _ λ address given.
        Returns-bind _ f (given-Returns env answering signer first _ _ address given) next

    deploy_lending_pool_task-Returns :
        Returns (deploy_lending_pool_task env ConfigNames.avalanche false)
    unfolding deploy_lending_pool_task deploy_stable_and_variable_tokens_helper
        deploy_vi_tokens_and_rates_helper
    deploy_lending_pool_task-Returns = at_avalanche env answering signer first _ (
        search
          (
            returns_rules,
            reuse_or_deploy-Returns,
            pool_implementation-Returns,
            configurator_implementation-Returns,
            at_emergency_admin,
            provider-Returns,
            at_pool,
            at_configurator,
            send_and_wait-Returns env answering signer first,
            insert_contract_address_in_db-Returns env answering signer first,
            deploy_and_save-Returns env answering signer first,
            deploy_vi_token_implementations-Returns env answering signer first,
          )
          depth 30 fits 3000)

    -- If the network's accounts are known, the database always has a record of the addresses
    -- provider and the world answers what it is asked, the task that deploys the lending pool of the
    -- Avalanche market, unverified, returns. The last transaction that it sent pauses the pool: the
    -- emergency admin sends it to the configurator whose address the recorded provider told, and no
    -- transaction comes between that answer and the pause.
    pub deploy_lending_pool_task_live :
        (h : History)
        → (k : History) × (deploy_lending_pool_task env ConfigNames.avalanche false h ≡ (ok tt, k))
          × PausesConfigurator env ConfigNames.avalanche h k
    deploy_lending_pool_task_live h =
        let (a, k, e) = returned_at deploy_lending_pool_task-Returns h in
        (
          k,
          e,
          Ensures-ok tt k (deploy_lending_pool_task_pauses env ConfigNames.avalanche false h).here
              e,
        )
