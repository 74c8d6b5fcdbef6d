-- ===== src/Tasks/Outcomes.antt =====
-- What the deployment tasks leave behind.
use vinium_lending.Prelude.{
  String, true, false, ◌≡◌, refl, ap, ◌∙◌, Option, none, some, List, [], ◌∷◌, truthy, lookup,
  get_elem?,
}
use vinium_lending.Effects.{
  Env, IsLive, one, set_pool_admin, set_emergency_admin, sent, History, ok, resume, Result, M, pure,
  ask, ◌>>=◌, ◌>>◌, rejected, or_throw,
}
use vinium_lending.Types.ContractId.{id_value, lending_pool_addresses_provider}
use vinium_lending.Markets.{avalanche_config}
use vinium_lending.Signers.{get_ethers_signers, get_first_signer}
use vinium_lending.ContractsHelpers.{get_param_per_network, read_param, network_key}
use vinium_lending.ContractsHelpers.Registry.{send_and_wait_live}
use vinium_lending.ContractsDeployments.{deploy_lending_pool_addresses_provider}
use vinium_lending.ContractsDeployments.Records.{instance_of, saved, deploy_and_save_live}
use vinium_lending.Configuration.{
  ConfigNames, current_network, load_pool_config, get_genesis_pool_admin, get_emergency_admin,
}
use vinium_lending.Tasks.Registry.{deploy_address_provider}

-- A parameter that names no network has no value on any.
no_param : (env : Env) (network : String) → get_param_per_network env {T = String} [] network ≡ none
unfolding get_param_per_network
no_param env network = read (truthy (env.getenv "FORK")) (network_key network)
  where
    read :
        (fork key : Option String)
        → (elim fork as (λ _. Option String) [
          | some f ↦ lookup f []
          | none ↦ read_param env [] key
        ])
          ≡ none
    read none none = refl
    read none (some k) = refl
    read (some f) key = refl

module _ (env : Env) (signer : String) (others : List String)
    (signers : (h : History) → get_ethers_signers env h ≡ (ok (signer ∷ others), h)) where
  pub first_of_signers : (h : History) → get_first_signer env h ≡ (ok signer, h)
  unfolding get_first_signer
  first_of_signers h = ap (resume _) (signers h)

  -- The configured address, or the first account.
  abbrev account_unless : History → Option String → Result (Option String) × History
  account_unless h target =
      elim (truthy target) as (λ _. M (Option String)) [
        | some address ↦ pure (some address)
        | none ↦ get_ethers_signers env >>= λ accounts. pure (get_elem? accounts 0)
      ]
        h

  genesis_admin_of_avalanche :
      (h : History)
      → get_genesis_pool_admin env (avalanche_config env.decimals) h ≡ (ok (some signer), h)
  unfolding get_genesis_pool_admin
  genesis_admin_of_avalanche h =
      ap (account_unless h) (no_param env (current_network env)) ∙ ap (resume _) (signers h)

  pub emergency_admin_of_avalanche :
      (h : History)
      → get_emergency_admin env (avalanche_config env.decimals) h ≡ (ok (some signer), h)
  unfolding get_emergency_admin
  emergency_admin_of_avalanche h =
      ap (account_unless h) (no_param env (current_network env)) ∙ ap (resume _) (signers h)

  -- If the network's accounts are known, every transaction goes through and view calls resolve, the
  -- task that deploys the addresses provider of the Avalanche market, unverified and without the
  -- registry, succeeds: the provider is deployed and recorded, and its deployer becomes pool admin
  -- and then emergency admin.
  pub deploy_address_provider_live :
      (live : IsLive env)
      (viewed : (h : History) (address method : String)
        → (answer : String) × (env.view_text h address method [] ≡ some answer))
      (h : History)
      → let id = id_value lending_pool_addresses_provider in
        let args = one "Avalanche market" ∷ [] in
        let provider =
          instance_of env live signer first_of_signers "LendingPoolAddressesProvider" args h in
        deploy_address_provider env ConfigNames.avalanche false true h ≡ (
          ok tt,
          sent provider.signer provider.address (set_emergency_admin signer)
              ∷ sent provider.signer provider.address (set_pool_admin signer)
              ∷ saved env live signer first_of_signers "LendingPoolAddressesProvider" id args h,
        )
  unfolding deploy_address_provider deploy_lending_pool_addresses_provider load_pool_config
  deploy_address_provider_live live viewed h =
      ap (resume _) (deploy_and_save_live env live signer first_of_signers _ _ _ h)
      ∙ (ap (resume _) (genesis_admin_of_avalanche _)
          ∙ (ap (resume _) (send_and_wait_live env live _ _ _)
              ∙ (ap (resume _) (emergency_admin_of_avalanche _)
                  ∙ (ap (resume _) (send_and_wait_live env live _ _ _)
                      ∙ (seen (ask env (λ k. env.view_text k _ "getEmergencyAdmin" []) >> pure tt) _
                            _ "getPoolAdmin"
                          ∙ seen (pure tt) _ _ "getEmergencyAdmin")))))
    where
      seen :
          (m : M (Unit {0})) (k : History) (address method : String)
          → (ask env (λ h. env.view_text h address method []) >>= λ _. m) k ≡ m k
      seen m k address method =
          ap (λ o. resume (λ _. m) (or_throw o rejected k)) (viewed k address method).1
