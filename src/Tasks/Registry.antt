-- ===== src/Tasks/Registry.antt =====
-- tasks/full/0_address_provider_registry.ts, tasks/full/1_address_provider.ts and
-- tasks/deployments/add-market-to-registry.ts.
pub mod Owner
pub mod Adds
use vinium_lending.Prelude.{
  ℕ, ◌+◌, String, Bool, true, false, not, ◌&&◌, ◌||◌, Option, none, some, List, [], ◌∷◌, map, codes,
  leb, nat_beq, truthy, if◌then◌else◌,
}
use vinium_lending.Effects.{
  Env, set_pool_admin, set_emergency_admin, register_addresses_provider, transfer_value, requested,
  M, pure, throw, or_throw, rejected, registry_owner_missing, exited, perform, ask, ◌>>=◌, ◌>>◌,
}
use vinium_lending.MiscUtils.{not_falsy_or_zero_address}
use vinium_lending.Signers.{get_first_signer}
use vinium_lending.ContractsHelpers.{get_param_per_network, send, send_and_wait}
use vinium_lending.ContractsGetters.{
  get_lending_pool_addresses_provider, get_lending_pool_addresses_provider_registry,
}
use vinium_lending.ContractsDeployments.{
  deploy_lending_pool_addresses_provider, deploy_lending_pool_addresses_provider_registry,
}
use vinium_lending.Configuration.{
  ConfigNames, load_pool_config, get_genesis_pool_admin, get_emergency_admin,
}

-- `toLocaleLowerCase` of an ASCII text, as character codes.
abbrev pub lower : ℕ → ℕ
lower c = if leb 65 c && leb c 90 then c + 32 else c

pub codes_beq : List ℕ → List ℕ → Bool
codes_beq [] [] = true
codes_beq (x ∷ xs) (y ∷ ys) = nat_beq x y && codes_beq xs ys
codes_beq _ _ = false

abbrev pub same_lower : String → String → Bool
same_lower s t = codes_beq (map lower (codes s)) (map lower (codes t))

module _ (env : Env) where
  unfoldable pub deploy_address_provider_registry : ConfigNames → Bool → M (Unit {0})
  deploy_address_provider_registry pool verify = do
    pool_config ← load_pool_config env pool
    signer ← get_first_signer env
    _ ← ask env (λ h. env.view_text h signer "getBalance" [])
    _ ← ask env (λ h. env.view_text h signer "getBalance" [])
    if not_falsy_or_zero_address env
          (get_param_per_network env pool_config.provider_registry env.network_name)
        then pure tt
        else deploy_lending_pool_addresses_provider_registry env verify >> pure tt

  -- `!address || !isAddress(address) || isZeroAddress(address)`
  abbrev pub is_no_address : Option String → Bool
  is_no_address address = not (not_falsy_or_zero_address env address)

  -- The registry's address and owner, and whether it has just been deployed.
  pub registry_and_owner :
      ConfigNames
      → Bool
      → Bool
      → Option String
      → Option String
      → M (Option String × Option String × Bool)
  unfolding deploy_address_provider_registry
  registry_and_owner pool verify deploy_registry address owner =
      elim (deploy_registry || is_no_address address) [
        | true ↦ do
          deploy_address_provider_registry pool verify
          registry ← get_lending_pool_addresses_provider_registry env none
          signer ← get_first_signer env
          pure (some registry.address, some signer, true)
        | false ↦ pure (address, owner, false)
      ]

  -- Who registers the market: the owner, impersonated on a fork, else the deployer if it is the same.
  pub registry_signer : String → String → Bool → M String
  unfolding codes_beq
  registry_signer owner current deployed = elim (truthy (env.getenv "FORK")) [
    | some _ ↦ do
      perform env (requested "hardhat_impersonateAccount" (owner ∷ []))
      first_account ← get_first_signer env
      send env (record { factory = ""; address = owner; signer = first_account })
          (transfer_value "10")
      pure owner
    | none ↦ if not deployed && not (same_lower owner current) then throw (exited 2) else pure owner
  ]

  unfoldable pub add_market_to_registry : ConfigNames → Option String → Bool → Bool → M (Unit {0})
  unfolding registry_and_owner registry_signer
  add_market_to_registry pool addresses_provider verify deploy_registry = do
    pool_config ← load_pool_config env pool
    current ← get_first_signer env
    (address, owner, deployed) ←
        registry_and_owner pool verify deploy_registry
          (get_param_per_network env pool_config.provider_registry env.network_name)
          (get_param_per_network env pool_config.provider_registry_owner env.network_name)
    if is_no_address owner then throw registry_owner_missing else do
      owner_address ← or_throw owner registry_owner_missing
      signer ← registry_signer owner_address current deployed
      registry ← get_lending_pool_addresses_provider_registry env address
      provider ← get_lending_pool_addresses_provider env addresses_provider
      send_and_wait env (record registry { signer = signer })
          (register_addresses_provider provider.address pool_config.provider_id)

  -- `deployRegistry` is set if the configuration has no usable registry; `verify` is not passed on.
  abbrev register_market : ConfigNames → String → Option String → M (Unit {0})
  register_market pool provider registry =
      add_market_to_registry pool (some provider) false (is_no_address registry)

  unfoldable pub deploy_address_provider : ConfigNames → Bool → Bool → M (Unit {0})
  unfolding add_market_to_registry
  deploy_address_provider pool verify skip_registry = do
    pool_config ← load_pool_config env pool
    provider ← deploy_lending_pool_addresses_provider env pool_config.market_id verify
    if skip_registry
        then pure tt
        else register_market pool provider.address
            (get_param_per_network env pool_config.provider_registry env.network_name)
    pool_admin ← get_genesis_pool_admin env pool_config
    admin ← or_throw pool_admin rejected
    send_and_wait env provider (set_pool_admin admin)
    emergency_admin ← get_emergency_admin env pool_config
    emergency ← or_throw emergency_admin rejected
    send_and_wait env provider (set_emergency_admin emergency)
    _ ← ask env (λ h. env.view_text h provider.address "getPoolAdmin" [])
    _ ← ask env (λ h. env.view_text h provider.address "getEmergencyAdmin" [])
    pure tt
