-- ===== src/Tests/Tasks.antt =====
-- The theorems on the deployment tasks and the token implementations at concrete inputs.
use vinium_lending.Prelude.{◌≡◌, refl, true, false, some, [], ◌∷◌}
use vinium_lending.Effects.{History, one, sent, set_pool_admin, set_emergency_admin, ok}
use vinium_lending.Effects.Ensures.{Ensures}
use vinium_lending.Types.ContractId.{id_value, lending_pool_addresses_provider}
use vinium_lending.Markets.{avalanche_config}
use vinium_lending.Signers.{get_ethers_signers}
use vinium_lending.ContractsHelpers.{zero_address}
use vinium_lending.ContractsDeployments.Records.{saved}
use vinium_lending.Configuration.{ConfigNames}
use vinium_lending.Tasks.Registry.{deploy_address_provider, add_market_to_registry}
use vinium_lending.Tasks.Registry.Owner.{RegisteredByFirst, add_market_to_registry_by_owner}
use vinium_lending.Tasks.Outcomes.{first_of_signers, deploy_address_provider_live}
use vinium_lending.Prelude.{String, includes, any, ◌==◌}
use vinium_lending.ContractAddress.{implementations_from}
use vinium_lending.ContractAddress.Implementations.{IsDistinct, implementations_from-IsDistinct}
use vinium_lending.Tests.World.{calm, calm-IsLive}

calm_signers : (h : History) → get_ethers_signers calm h ≡ (ok ("0xa1" ∷ "0xa2" ∷ []), h)
unfolding get_ethers_signers
calm_signers h = refl

deploy_address_provider_live_example :
    deploy_address_provider calm ConfigNames.avalanche false true [] ≡ (
      ok tt,
      sent "0xa1" "0xc1" (set_emergency_admin "0xa1")
          ∷ sent "0xa1" "0xc1" (set_pool_admin "0xa1")
          ∷ saved calm calm-IsLive "0xa1"
              (first_of_signers calm "0xa1" ("0xa2" ∷ []) calm_signers)
              "LendingPoolAddressesProvider"
              (id_value lending_pool_addresses_provider)
              (one "Avalanche market" ∷ [])
              [],
    )
deploy_address_provider_live_example =
    deploy_address_provider_live calm "0xa1" ("0xa2" ∷ []) calm_signers calm-IsLive
      (λ h address method. (zero_address, refl)) []

add_market_to_registry_by_owner_example :
    Ensures
      (λ _. RegisteredByFirst calm)
      (add_market_to_registry calm ConfigNames.avalanche (some "0x71") false true [])
add_market_to_registry_by_owner_example =
    add_market_to_registry_by_owner calm ConfigNames.avalanche (some "0x71") false true [] refl

implementations_from-IsDistinct_example :
    let reserves = (avalanche_config calm.decimals).reserves_config in
    ((k : String)
      → includes (implementations_from calm [] reserves) k
        ≡ any (λ e. e.1.vi_token_impl == k) reserves)
    × IsDistinct (implementations_from calm [] reserves)
implementations_from-IsDistinct_example =
    implementations_from-IsDistinct calm (avalanche_config calm.decimals).reserves_config
