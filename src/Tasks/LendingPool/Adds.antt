-- ===== src/Tasks/LendingPool/Adds.antt =====
-- What `full:deploy-lending-pool` adds to the history, under a test that lets its transactions through.
use vinium_lending.Prelude.{String, Bool, true, ◌≡◌, [], ◌∷◌}
use vinium_lending.Effects.{
  Env, Call, initialize, set_lending_pool_impl, set_lending_pool_configurator_impl, set_pool_pause,
}
use vinium_lending.Effects.Adds.{Adds, allows, adds_rules}
use vinium_lending.ContractsHelpers.{Contract}
use vinium_lending.ContractsHelpers.Adds.{
  allows-Requests, send-Adds, send_and_wait-Adds, insert_contract_address_in_db-Adds,
}
use vinium_lending.ContractsGetters.Adds.{getter_rules}
use vinium_lending.ContractsDeployments.{
  deploy_stable_and_variable_tokens_helper, deploy_vi_tokens_and_rates_helper,
}
use vinium_lending.ContractsDeployments.Adds.{
  deploy_and_save-Adds, deploy_lending_pool-Adds, deploy_lending_pool_configurator-Adds,
}
use vinium_lending.Configuration.{ConfigNames}
use vinium_lending.Configuration.Adds.{load_pool_config-Adds, get_emergency_admin-Adds}
use vinium_lending.ContractAddress.Adds.{deploy_vi_token_implementations-Adds}
use vinium_lending.Tasks.Steps.Adds.{reuse_or_deploy-Adds}
use vinium_lending.Tasks.LendingPool.{
  pool_implementation, configurator_implementation, deploy_lending_pool_task,
}

-- The test lets through the transactions of the task.
pub record PoolCalls (q : Call → Bool) : Type 0 where
  pub initializes : (provider : String) → q (initialize (provider ∷ [])) ≡ true
  pub sets_pool : (impl : String) → q (set_lending_pool_impl impl) ≡ true
  pub sets_configurator : (impl : String) → q (set_lending_pool_configurator_impl impl) ≡ true
  pub pauses : q (set_pool_pause true) ≡ true

module _ (env : Env) {q : Call → Bool} (calls : PoolCalls q) where
  pool_implementation-Adds :
      (provider : Contract) (verify : Bool)
      → Adds (allows q) (pool_implementation env provider verify)
  unfolding pool_implementation
  pool_implementation-Adds provider verify =
      search (adds_rules, deploy_lending_pool-Adds env q, send-Adds env q, calls.initializes)

  configurator_implementation-Adds :
      (verify : Bool) → Adds (allows q) (configurator_implementation env verify)
  unfolding configurator_implementation
  configurator_implementation-Adds verify =
      search (adds_rules, deploy_lending_pool_configurator-Adds env q)

  pub deploy_lending_pool_task-Adds :
      (pool : ConfigNames) (verify : Bool)
      → Adds (allows q) (deploy_lending_pool_task env pool verify)
  unfolding deploy_lending_pool_task deploy_stable_and_variable_tokens_helper
      deploy_vi_tokens_and_rates_helper
  deploy_lending_pool_task-Adds pool verify =
      search
        (
          adds_rules,
          getter_rules,
          allows-Requests,
          load_pool_config-Adds env,
          reuse_or_deploy-Adds,
          pool_implementation-Adds,
          configurator_implementation-Adds,
          send_and_wait-Adds env q,
          calls.sets_pool,
          calls.sets_configurator,
          calls.pauses,
          insert_contract_address_in_db-Adds env q,
          get_emergency_admin-Adds env (allows-Requests q),
          deploy_and_save-Adds env q,
          deploy_vi_token_implementations-Adds env q,
        )
        depth 30 fits 3000
