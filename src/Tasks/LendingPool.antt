-- ===== src/Tasks/LendingPool.antt =====
-- tasks/full/2_lending_pool.ts. Its `catch` prints and throws the same error again.
pub mod Adds
pub mod Live
use vinium_lending.Prelude.{String, Bool, none, some, [], ◌∷◌}
use vinium_lending.Effects.{
  Env, initialize, set_lending_pool_impl, set_lending_pool_configurator_impl, set_pool_pause, M,
  pure, or_throw, rejected, ask, ◌>>=◌, ◌>>◌,
}
use vinium_lending.Types.ContractId.{id_value, lending_pool, lending_pool_configurator}
use vinium_lending.ContractsHelpers.{
  Contract, get_param_per_network, insert_contract_address_in_db, send, send_and_wait,
}
use vinium_lending.ContractsGetters.{
  get_lending_pool, get_lending_pool_addresses_provider, get_lending_pool_configurator_proxy,
}
use vinium_lending.ContractsDeployments.{
  deploy_lending_pool, deploy_lending_pool_configurator, deploy_stable_and_variable_tokens_helper,
  deploy_vi_tokens_and_rates_helper,
}
use vinium_lending.Configuration.{ConfigNames, load_pool_config, get_emergency_admin}
use vinium_lending.ContractAddress.{deploy_vi_token_implementations}
use vinium_lending.Tasks.Steps.{reuse_or_deploy}

module _ (env : Env) where
  -- A new pool implementation is initialised; the transaction is not waited for.
  pool_implementation : Contract → Bool → M String
  pool_implementation provider verify = do
    impl ← deploy_lending_pool env verify
    send env impl (initialize (provider.address ∷ []))
    pure impl.address

  configurator_implementation : Bool → M String
  configurator_implementation verify = do
    impl ← deploy_lending_pool_configurator env verify
    pure impl.address

  unfoldable pub deploy_lending_pool_task : ConfigNames → Bool → M (Unit {0})
  unfolding pool_implementation configurator_implementation
  deploy_lending_pool_task pool verify = do
    pool_config ← load_pool_config env pool
    provider ← get_lending_pool_addresses_provider env none
    pool_impl ←
        reuse_or_deploy env (get_param_per_network env pool_config.lending_pool env.network_name)
          (pool_implementation provider verify)
    send_and_wait env provider (set_lending_pool_impl pool_impl)
    pool_address ← ask env (λ h. env.view_text h provider.address "getLendingPool" [])
    pool_proxy ← get_lending_pool env (some pool_address)
    insert_contract_address_in_db env (id_value lending_pool) pool_proxy.address
    configurator_impl ←
        reuse_or_deploy env
          (get_param_per_network env pool_config.lending_pool_configurator env.network_name)
          (configurator_implementation verify)
    send_and_wait env provider (set_lending_pool_configurator_impl configurator_impl)
    configurator_address ←
        ask env (λ h. env.view_text h provider.address "getLendingPoolConfigurator" [])
    configurator ← get_lending_pool_configurator_proxy env (some configurator_address)
    insert_contract_address_in_db env (id_value lending_pool_configurator) configurator.address
    emergency_admin ← get_emergency_admin env pool_config
    admin ← or_throw emergency_admin rejected
    send_and_wait env (record configurator { signer = admin }) (set_pool_pause Bool.true)
    deploy_stable_and_variable_tokens_helper env pool_proxy.address provider.address verify
    deploy_vi_tokens_and_rates_helper env pool_proxy.address provider.address configurator.address
        verify
    deploy_vi_token_implementations env pool pool_config.reserves_config verify
