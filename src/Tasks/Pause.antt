-- ===== src/Tasks/Pause.antt =====
-- The transactions that pause the pool and that unpause it: to which contract they are sent.
use vinium_lending.Prelude.{String, Bool, true, false, ◌≡◌, ◌∙◌, none, some, [], ◌∷◌}
use mathlib.Core.Path.{subst}
use vinium_lending.Effects.{
  Env, Call, sent, set_pool_pause, rejected, or_throw, History, M, ok, ask, ◌>>=◌, ◌>>◌,
}
use vinium_lending.Effects.Adds.{Adds, Adds-ok, Extends, Extends-trans, allows, adds_rules}
use vinium_lending.Effects.Ends.{Ends, Ends-next, EndsAt, EndsAt-next, EndsAt-any, extended}
use vinium_lending.Effects.Ensures.{
  Ensures, Ensures-imp, Ensures-resume, Ensures-self, ask-Ensures-after, or_throw-Ensures-after,
}
use vinium_lending.Types.Config.{ICommonConfiguration}
use vinium_lending.ContractsHelpers.{Contract, send_and_wait, insert_contract_address_in_db}
use vinium_lending.ContractsGetters.Adds.{get_lending_pool_configurator_proxy-Adds}
use vinium_lending.Configuration.Adds.{get_emergency_admin-Adds}
use vinium_lending.ContractsHelpers.Adds.{allows-Requests, insert_contract_address_in_db-Adds}
use vinium_lending.ContractsGetters.{
  get_lending_pool_addresses_provider, get_lending_pool_configurator_proxy,
}
use vinium_lending.ContractsDeployments.{
  deploy_stable_and_variable_tokens_helper, deploy_vi_tokens_and_rates_helper,
}
use vinium_lending.ContractsDeployments.Adds.{deploy_and_save-Adds}
use vinium_lending.Configuration.{ConfigNames, load_pool_config, get_emergency_admin}
use vinium_lending.ContractAddress.Adds.{deploy_vi_token_implementations-Adds}
use vinium_lending.Tasks.LendingPool.{deploy_lending_pool_task}
use vinium_lending.Tasks.Dev.{dev_initialize_lending_pool}
use vinium_lending.Tasks.Verifications.Adds.{no_call}
use vinium_lending.Tasks.Registration.{send_and_wait-Ensures}

module _ (env : Env) where
  -- From `h` to `k`, a run of the deployment for a market has found the addresses provider, asked it
  -- for the configurator, and paused the pool through that contract, signed by the emergency admin.
  -- Between the question and the pause, and after the pause, there is no other transaction.
  pub record PausesConfigurator (pool : ConfigNames) (h k : History) : Type 0 where
    pub config : ICommonConfiguration
    pub provider : Contract
    pub address : String
    pub configurator : Contract
    pub admin : String
    pub loaded : History
    pub found : History
    pub asked : History
    pub connected : History
    pub recorded : History
    pub before : History
    pub at_config : load_pool_config env pool h ≡ (ok config, loaded)
    pub at_provider : get_lending_pool_addresses_provider env none loaded ≡ (ok provider, found)
    pub at_address :
        env.view_text asked provider.address "getLendingPoolConfigurator" [] ≡ some address
    pub at_configurator :
        get_lending_pool_configurator_proxy env (some address) asked ≡ (ok configurator, connected)
    pub at_admin : get_emergency_admin env config recorded ≡ (ok (some admin), before)
    pub no_call_between : Extends (allows no_call) asked before
    pub no_call_after :
        Extends (allows no_call) (sent admin configurator.address (set_pool_pause true) ∷ before) k

  -- A transaction, and what follows it without another one.
  sent_then :
      {B : Type 0} (c : Contract) (call : Call) (f : Unit {0} → M B)
      → ((a : Unit {0}) → Adds (allows no_call) (f a))
      → (h : History)
      → Ensures
          (λ _. Extends (allows no_call) (sent c.signer c.address call ∷ h))
          ((send_and_wait env c call >>= f) h)
  sent_then c call f rest h = Ensures-resume f (send_and_wait-Ensures env c call h) λ a k e.
      extended (f a k) ((rest a).at k)
        λ l extends. subst (λ j. Extends (allows no_call) j l) e extends

  inserted :
      (id address : String) (h : History)
      → Ensures
          (λ _ k. Extends (allows no_call) h k)
          (insert_contract_address_in_db env id address h)
  inserted id address h =
      extended _ ((insert_contract_address_in_db-Adds env no_call id address).at h)
        λ l extends. extends

  -- The part of the deployment that asks for the configurator and pauses, before `rest`.
  pause_part :
      {B : Type 0} (pool : ConfigNames) (h : History) (config : ICommonConfiguration)
      (provider : Contract) (loaded found : History)
      → load_pool_config env pool h ≡ (ok config, loaded)
      → get_lending_pool_addresses_provider env none loaded ≡ (ok provider, found)
      → (id : String) (rest : Contract → M B) → ((c : Contract) → Adds (allows no_call) (rest c))
      → Ends (PausesConfigurator pool h) (
          ask env (λ k. env.view_text k provider.address "getLendingPoolConfigurator" []) >>= λ a.
          get_lending_pool_configurator_proxy env (some a) >>= λ c.
          insert_contract_address_in_db env id c.address
          >> (get_emergency_admin env config >>= λ admin. or_throw admin rejected >>= λ signer.
              send_and_wait env (record c { signer = signer }) (set_pool_pause true) >> rest c))
  pause_part pool h config provider loaded found at_config at_provider id rest adds = record {
    at = λ k.
        Ensures-resume _
          (ask-Ensures-after env
            (λ j. env.view_text j provider.address "getLendingPoolConfigurator" []) k)
          λ a asked told.
            Ensures-resume _ (Ensures-self (get_lending_pool_configurator_proxy env (some a) asked))
              λ c connected at_configurator.
                Ensures-resume _ (inserted id c.address connected) λ _ recorded between.
                  Ensures-resume _ (Ensures-self (get_emergency_admin env config recorded))
                    λ admin before at_admin.
                      Ensures-resume _ (or_throw-Ensures-after admin rejected before)
                        λ signer ready is_admin.
                          Ensures-imp
                            (sent_then (record c { signer = signer }) (set_pool_pause true)
                              (λ _. rest c) (λ _. adds c) ready)
                            λ _ l after. record {
                              config = config;
                              provider = provider;
                              address = a;
                              configurator = c;
                              admin = signer;
                              loaded = loaded;
                              found = found;
                              asked = asked;
                              connected = connected;
                              recorded = recorded;
                              before = ready;
                              at_config = at_config;
                              at_provider = at_provider;
                              at_address = told;
                              at_configurator = at_configurator;
                              no_call_between =
                                  Extends-trans
                                    (Extends-trans
                                      (Adds-ok
                                        (get_lending_pool_configurator_proxy-Adds env
                                          (allows-Requests no_call) (some a))
                                        at_configurator)
                                      between)
                                    (Adds-ok
                                      (get_emergency_admin-Adds env (allows-Requests no_call)
                                        config)
                                      (at_admin ∙ is_admin));
                              at_admin = at_admin ∙ is_admin;
                              no_call_after = after;
                            };
  }

  -- Whenever the deployment of the lending pool returns, for any pool and in any world, it has paused
  -- the pool as its last transaction.
  pub deploy_lending_pool_task_pauses :
      (pool : ConfigNames) (verify : Bool) (h : History)
      → EndsAt h (PausesConfigurator pool h) (deploy_lending_pool_task env pool verify)
  unfolding deploy_lending_pool_task deploy_stable_and_variable_tokens_helper
      deploy_vi_tokens_and_rates_helper
  deploy_lending_pool_task_pauses pool verify h =
      EndsAt-next (load_pool_config env pool) _ λ config loaded at_config.
        EndsAt-next (get_lending_pool_addresses_provider env none) _ λ provider found at_provider.
          EndsAt-any _ (
            search
              (
                Ends-next,
                pause_part pool h config provider loaded found at_config at_provider,
                adds_rules,
                deploy_and_save-Adds env no_call,
                deploy_vi_token_implementations-Adds env no_call,
              )
              depth 25 fits 3000)

  -- The newest action unpauses the pool through the configurator that the getter finds.
  pub record UnpausesConfigurator (k : History) : Type 0 where
    pub configurator : Contract
    pub asked : History
    pub before : History
    pub at_configurator :
        get_lending_pool_configurator_proxy env none asked ≡ (ok configurator, before)
    pub newest : k ≡ sent configurator.signer configurator.address (set_pool_pause false) ∷ before

  unpauses_configurator : Ends UnpausesConfigurator (
      get_lending_pool_configurator_proxy env none >>= λ c.
      send_and_wait env c (set_pool_pause false))
  unpauses_configurator = record {
    at = λ h.
        Ensures-resume _ (Ensures-self (get_lending_pool_configurator_proxy env none h))
          λ c k found. Ensures-imp (send_and_wait-Ensures env c (set_pool_pause false) k) λ _ l e.
            record { configurator = c; asked = h; before = k; at_configurator = found; newest = e };
  }

  -- If the initialisation of a development environment returns, for any pool and in any world, its
  -- newest action is a transaction that unpauses the pool, sent to the configurator that the getter
  -- finds right before it.
  pub dev_initialize_lending_pool_unpauses :
      (pool : ConfigNames) (verify : Bool)
      → Ends UnpausesConfigurator (dev_initialize_lending_pool env pool verify)
  unfolding dev_initialize_lending_pool
  dev_initialize_lending_pool_unpauses pool verify =
      search (Ends-next, unpauses_configurator) depth 30 fits 3000
