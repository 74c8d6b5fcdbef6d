-- ===== src/Tasks/Registry/Adds.antt =====
-- What the deployment of the addresses provider and of its registry adds to the history, under a test
-- that lets its transactions through.
use vinium_lending.Prelude.{ℕ, String, Bool, true, ◌≡◌, refl, ◌||◌, not, ◌&&◌, Option, [], truthy}
use vinium_lending.Effects.{
  Env, Call, set_pool_admin, set_emergency_admin, register_addresses_provider, transfer_value, ask,
}
use vinium_lending.Effects.Adds.{
  Adds, allows, adds_rules, Adds-if, Adds-elim_bool, Adds-elim_option, Adds-pure, Adds-throw,
  Adds-bind, Adds-perform, Adds-ask,
}
use vinium_lending.Types.ContractId.{id_value, lending_pool_addresses_provider_registry}
use vinium_lending.Signers.Adds.{get_first_signer-Adds}
use vinium_lending.MiscUtils.{not_falsy_or_zero_address}
use vinium_lending.ContractsHelpers.{get_param_per_network}
use vinium_lending.ContractsHelpers.Adds.{allows-Requests, send-Adds, send_and_wait-Adds}
use vinium_lending.ContractsGetters.Adds.{getter_rules}
use vinium_lending.ContractsDeployments.{
  deploy_lending_pool_addresses_provider, deploy_lending_pool_addresses_provider_registry,
}
use vinium_lending.ContractsDeployments.Adds.{deploy_and_save-Adds}
use vinium_lending.Configuration.{ConfigNames}
use vinium_lending.Configuration.Adds.{
  load_pool_config-Adds, get_genesis_pool_admin-Adds, get_emergency_admin-Adds,
}
use vinium_lending.Tasks.Registry.{
  same_lower, is_no_address, deploy_address_provider_registry, registry_and_owner, registry_signer,
  add_market_to_registry, deploy_address_provider,
}

-- The test lets through the transactions of the tasks.
pub record ProviderCalls (q : Call → Bool) : Type 0 where
  pub sets_pool_admin : (admin : String) → q (set_pool_admin admin) ≡ true
  pub sets_emergency_admin : (admin : String) → q (set_emergency_admin admin) ≡ true
  pub registers : (provider : String) (id : ℕ) → q (register_addresses_provider provider id) ≡ true
  pub funds : (value : String) → q (transfer_value value) ≡ true

module _ (env : Env) {q : Call → Bool} (calls : ProviderCalls q) where
  balance-Adds :
      (account : String) → Adds (allows q) (ask env (λ h. env.view_text h account "getBalance" []))
  balance-Adds account = Adds-ask env _

  pub deploy_address_provider_registry-Adds :
      (pool : ConfigNames) (verify : Bool)
      → Adds (allows q) (deploy_address_provider_registry env pool verify)
  unfolding deploy_address_provider_registry deploy_lending_pool_addresses_provider_registry
  deploy_address_provider_registry-Adds pool verify =
      Adds-bind _ _ (load_pool_config-Adds env pool) λ config.
        Adds-bind _ _ (get_first_signer-Adds env (allows-Requests q)) λ signer.
          Adds-bind _ _ (balance-Adds signer) λ _. Adds-bind _ _ (balance-Adds signer) λ _.
            Adds-if
              (not_falsy_or_zero_address env
                (get_param_per_network env config.provider_registry env.network_name))
              _ _ (Adds-pure tt)
              (Adds-bind _ _
                (deploy_and_save-Adds env q _ (id_value lending_pool_addresses_provider_registry) _
                  _)
                λ _. Adds-pure tt)

  registry_and_owner-Adds :
      (pool : ConfigNames) (verify deploy_registry : Bool) (address owner : Option String)
      → Adds (allows q) (registry_and_owner env pool verify deploy_registry address owner)
  unfolding registry_and_owner
  registry_and_owner-Adds pool verify deploy_registry address owner =
      Adds-elim_bool (deploy_registry || is_no_address env address) _ _
        (search
          (
            adds_rules, getter_rules, allows-Requests, deploy_address_provider_registry-Adds,
            get_first_signer-Adds,
          )
          depth 8)
        (Adds-pure _)

  registry_signer-Adds :
      (owner current : String) (deployed : Bool)
      → Adds (allows q) (registry_signer env owner current deployed)
  unfolding registry_signer
  registry_signer-Adds owner current deployed =
      Adds-elim_option (truthy (env.getenv "FORK")) _ _
        (Adds-if (not deployed && not (same_lower owner current)) _ _ (Adds-throw _) (Adds-pure _))
        λ _. Adds-bind _ _ (Adds-perform env _ refl) λ _.
          Adds-bind _ _ (get_first_signer-Adds env (allows-Requests q)) λ first_account.
            Adds-bind _ _ (send-Adds env q _ (transfer_value "10") (calls.funds "10"))
              λ _. Adds-pure owner

  add_market_to_registry-Adds :
      (pool : ConfigNames) (provider : Option String) (verify deploy_registry : Bool)
      → Adds (allows q) (add_market_to_registry env pool provider verify deploy_registry)
  unfolding add_market_to_registry
  add_market_to_registry-Adds pool provider verify deploy_registry =
      search
        (
          adds_rules,
          getter_rules,
          allows-Requests,
          load_pool_config-Adds,
          get_first_signer-Adds,
          registry_and_owner-Adds,
          registry_signer-Adds,
          send_and_wait-Adds env q,
          calls.registers,
        )
        depth 20

  pub deploy_address_provider-Adds :
      (pool : ConfigNames) (verify skip_registry : Bool)
      → Adds (allows q) (deploy_address_provider env pool verify skip_registry)
  unfolding deploy_address_provider deploy_lending_pool_addresses_provider
  deploy_address_provider-Adds pool verify skip_registry =
      search
        (
          adds_rules,
          load_pool_config-Adds,
          deploy_and_save-Adds env q,
          add_market_to_registry-Adds,
          get_genesis_pool_admin-Adds env (allows-Requests q),
          get_emergency_admin-Adds env (allows-Requests q),
          send_and_wait-Adds env q,
          calls.sets_pool_admin,
          calls.sets_emergency_admin,
        )
        depth 25
