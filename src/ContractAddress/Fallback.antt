-- ===== src/ContractAddress/Fallback.antt =====
-- The fallback of `getContractAddressWithJsonFallback`, after a deployment.
use vinium_lending.Prelude.{
  String, ◌≡◌, refl, ap, ◌∙◌, Bool, true, false, ◌&&◌, Option, none, List, ◌==◌,
}
use vinium_lending.Effects.{Env, IsLive, IsDatabase, Arg, History, M, ok, resume, ◌>>◌}
use vinium_lending.Signers.{get_first_signer}
use vinium_lending.Types.Config.{IParamsPerNetwork}
use vinium_lending.Markets.{avalanche_config}
use vinium_lending.MiscUtils.{not_falsy_or_zero_address}
use vinium_lending.ContractsHelpers.{zero_address, get_optional_param_address_per_network}
use vinium_lending.ContractsDeployments.{deploy_and_save}
use vinium_lending.ContractsDeployments.Records.{instance_of, saved, deploy_and_save_live}
use vinium_lending.Configuration.{avalanche, load_pool_config}
use vinium_lending.ContractAddress.{
  config_property, address_in_db, given_or_in_db, get_contract_address_with_json_fallback,
}

and_false : (b : Bool) → (b && false) ≡ false
and_false true = refl
and_false false = refl

-- An unset parameter yields the zero address, which is not usable.
unset_is_unusable :
    (env : Env) (network : String)
    → env.is_zero_address zero_address ≡ true
    → not_falsy_or_zero_address env (get_optional_param_address_per_network env none network)
      ≡ false
unfolding not_falsy_or_zero_address get_optional_param_address_per_network
unset_is_unusable env network zero_is_zero =
    rw zero_is_zero (and_false (env.is_address zero_address))

module _ (env : Env) (live : IsLive env) (signer : String)
    (first : (h : History) → get_first_signer env h ≡ (ok signer, h))
    (zero_is_zero : env.is_zero_address zero_address ≡ true) where
  -- The address of the market if it is usable, else that of the database.
  abbrev chosen : String → Option String → Bool → M String
  chosen id at_market usable = elim usable as (λ _. M String) [
    | true ↦ given_or_in_db env id at_market
    | false ↦ address_in_db env id
  ]

  abbrev chosen_from : String → Option (IParamsPerNetwork String) → M String
  chosen_from id param =
      let at_market = get_optional_param_address_per_network env param env.network_name in
      chosen id at_market (not_falsy_or_zero_address env at_market)

  fallback_unset :
      (id : String) (h : History)
      → config_property (avalanche_config env.decimals) id ≡ none
      → get_contract_address_with_json_fallback env id avalanche h ≡ address_in_db env id h
  unfolding get_contract_address_with_json_fallback load_pool_config
  fallback_unset id h unset =
      ap (λ param. chosen_from id param h) unset
      ∙ ap
          (λ usable.
            chosen id (get_optional_param_address_per_network env none env.network_name) usable h)
          (unset_is_unusable env env.network_name zero_is_zero)

  -- If the network has a first signer, every transaction goes through, the database keeps what it is
  -- given and the zero address is recognised, then on the Avalanche market the address of an id that
  -- is no parameter of the configuration is that of the contract deployed last under the id,
  -- provided that it is not empty.
  pub get_contract_address-deploy_and_save :
      IsDatabase env
      → (factory id : String) (args : List Arg) (h : History)
      → config_property (avalanche_config env.decimals) id ≡ none
      → ((instance_of env live signer first factory args h).address == "") ≡ false
      → (deploy_and_save env factory id args false
            >> get_contract_address_with_json_fallback env id avalanche)
          h
        ≡ (
          ok ((instance_of env live signer first factory args h).address),
          saved env live signer first factory id args h,
        )
  unfolding address_in_db
  get_contract_address-deploy_and_save database factory id args h unset given =
      ap (resume _) (deploy_and_save_live env live signer first factory id args h)
      ∙ (fallback_unset id _ unset ∙ rw (database.get_stored _ id env.network_name _, given) refl)
