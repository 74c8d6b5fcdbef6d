-- ===== src/Tasks/Registry/Owner.antt =====
-- Who registers a market (tasks/deployments/add-market-to-registry.ts).
use vinium_lending.Prelude.{
  ℕ, String, ◌≡◌, refl, Bool, true, false, not, ◌&&◌, ◌||◌, Option, none, some, List, [], ◌∷◌,
  truthy, Bool-cases, inl, inr, arith, ap, sym, ◌∙◌, ◌⊎◌,
}
use mathlib.Core.Path.{subst}
use vinium_lending.Effects.{
  Env, sent, register_addresses_provider, registry_owner_missing, History, ok,
}
use vinium_lending.Effects.Ensures.{
  Ensures, returned, threw, Ensures-resume, Ensures-any, Ensures-imp, Ensures-self,
  or_throw-Ensures,
}
use vinium_lending.Signers.{get_first_signer}
use vinium_lending.ContractsHelpers.{get_param_per_network}
use vinium_lending.ContractsGetters.{
  get_lending_pool_addresses_provider, get_lending_pool_addresses_provider_registry,
}
use vinium_lending.Configuration.{ConfigNames, load_pool_config}
use vinium_lending.Tasks.Registry.{
  codes_beq, same_lower, is_no_address, deploy_address_provider_registry, registry_and_owner,
  registry_signer, add_market_to_registry,
}
use vinium_lending.Tasks.Registration.{send_and_wait-Ensures}

codes_beq_self : (xs : List ℕ) → codes_beq xs xs ≡ true
unfolding codes_beq
codes_beq_self [] = refl
codes_beq_self (x ∷ xs) = ground (arith, codes_beq_self xs)

module _ (env : Env) where
  -- The first signer of the network, at some time.
  abbrev pub IsFirstSigner : String → Type 0
  IsFirstSigner signer = (h : History) × (k : History) × (get_first_signer env h ≡ (ok signer, k))

  -- The owner of a registry that has just been deployed is the first signer.
  abbrev OwnsDeployed : Option String × Option String × Bool → Type 0
  OwnsDeployed (address, owner, deployed) =
      deployed ≡ true → (signer : String) × (owner ≡ some signer) × IsFirstSigner signer

  registry_and_owner-Ensures :
      (pool : ConfigNames) (verify deploy_registry : Bool) (address owner : Option String)
      (h : History)
      → Ensures
          (λ r _. OwnsDeployed r)
          (registry_and_owner env pool verify deploy_registry address owner h)
  unfolding registry_and_owner
  registry_and_owner-Ensures pool verify deploy_registry address owner h =
      elim (Bool-cases (deploy_registry || is_no_address env address)) [
        | inl needed ↦
            rw (needed, registry_and_owner)
              (Ensures-any _ (deploy_address_provider_registry env pool verify h) λ _ k1.
                Ensures-any _ (get_lending_pool_addresses_provider_registry env none k1)
                  λ registry k2.
                    Ensures-resume _ (Ensures-self (get_first_signer env k2))
                      λ signer k3 first. returned (λ _. (signer, refl, (k2, k3, first))))
        | inr reused ↦ rw (reused, registry_and_owner) (returned (λ e. cc))
      ]

  registry_signer-Ensures :
      (owner current : String) (deployed : Bool) (h : History)
      → truthy (env.getenv "FORK") ≡ none
      → Ensures
          (λ signer _.
            (signer ≡ owner) × ((not deployed && not (same_lower owner current)) ≡ false))
          (registry_signer env owner current deployed h)
  unfolding registry_signer
  registry_signer-Ensures owner current deployed h unset =
      rw (unset, registry_signer)
        (elim (Bool-cases (not deployed && not (same_lower owner current))) [
          | inl other ↦ rw (other, registry_signer) threw
          | inr same ↦ rw (same, registry_signer) (returned (refl, refl))
        ])

  same_of :
      (deployed : Bool) (owner current : String)
      → (not deployed && not (same_lower owner current)) ≡ false
      → (deployed ≡ true) ⊎ (same_lower owner current ≡ true)
  same_of true owner current e = inl refl
  same_of false owner current e = elim (Bool-cases (same_lower owner current)) [
    | inl same ↦ inr same
    | inr other ↦ absurd (ground (arith, other))
  ]

  -- The first signer of the network, up to the case of letters.
  abbrev pub IsFirstUpToCase : String → Type 0
  IsFirstUpToCase owner =
      (signer : String) × (same_lower owner signer ≡ true) × IsFirstSigner signer

  registry_signer-IsFirstUpToCase :
      (owner current : String) (deployed : Bool)
      → ((not deployed && not (same_lower owner current)) ≡ false)
      → IsFirstSigner current
      → (deployed ≡ true → (signer : String) × (some owner ≡ some signer) × IsFirstSigner signer)
      → IsFirstUpToCase owner
  registry_signer-IsFirstUpToCase owner current deployed allowed first owns =
      elim (same_of deployed owner current allowed) [
        | inl fresh ↦
            let (signer, same, is_first) = owns fresh in
            let e : owner ≡ signer = cc in
            (signer, ap (same_lower owner) (sym e) ∙ codes_beq_self _, is_first)
        | inr same ↦ (current, same, first)
      ]

  -- The newest action registers a provider, signed by the first signer of the network.
  abbrev pub RegisteredByFirst : History → Type 0
  RegisteredByFirst k =
      (owner : String) × (registry : String) × (provider : String) × (id : ℕ) × (before : History)
      × (k ≡ sent owner registry (register_addresses_provider provider id) ∷ before)
      × IsFirstUpToCase owner

  -- Outside a fork, in any world: if the task that adds a market to the registry returns, its last
  -- action registers a provider, and the account that signs it is the first signer of the network up
  -- to the case of letters.
  pub add_market_to_registry_by_owner :
      (pool : ConfigNames) (provider : Option String) (verify deploy_registry : Bool) (h : History)
      → truthy (env.getenv "FORK") ≡ none
      → Ensures
          (λ _. RegisteredByFirst)
          (add_market_to_registry env pool provider verify deploy_registry h)
  unfolding add_market_to_registry
  add_market_to_registry_by_owner pool provider verify deploy_registry h unset =
      Ensures-any _ (load_pool_config env pool h) λ config k1.
        Ensures-resume _ (Ensures-self (get_first_signer env k1)) λ current k2 first.
          Ensures-resume _
            (registry_and_owner-Ensures pool verify deploy_registry
              (get_param_per_network env config.provider_registry env.network_name)
              (get_param_per_network env config.provider_registry_owner env.network_name) k2)
            λ found k3 owns. elim (Bool-cases (is_no_address env found.1)) [
              | inl nobody ↦ rw nobody threw
              | inr somebody ↦ rw somebody (
                  Ensures-resume _ (or_throw-Ensures found.1 registry_owner_missing k3)
                    λ owner k4 is_owner.
                      Ensures-resume _ (registry_signer-Ensures owner current found.2 k4 unset)
                        λ signer k5 allowed.
                          Ensures-any _
                            (get_lending_pool_addresses_provider_registry env found.0 k5)
                            λ registry k6.
                              Ensures-any _ (get_lending_pool_addresses_provider env provider k6)
                                λ instance_ k7.
                                  Ensures-imp
                                    (send_and_wait-Ensures env (record registry { signer = signer })
                                      (register_addresses_provider instance_.address
                                        config.provider_id)
                                      k7)
                                    λ _ k newest. (
                                      signer,
                                      registry.address,
                                      instance_.address,
                                      config.provider_id,
                                      k7,
                                      newest,
                                      subst IsFirstUpToCase (sym allowed.0) (
                                          registry_signer-IsFirstUpToCase owner current found.2
                                            allowed.1 (k1, k2, first)
                                            (λ e.
                                              let (s, same, is_first) = owns e in
                                              (s, sym is_owner ∙ same, is_first))),
                                    ))
            ]
