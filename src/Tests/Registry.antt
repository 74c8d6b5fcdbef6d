-- ===== src/Tests/Registry.antt =====
-- The theorems on records, mock tokens, symbols and flattened sources at concrete inputs.
use vinium_lending.Prelude.{
  String, ◌≡◌, ◌≤◌, refl, true, false, some, none, List, [], ◌∷◌, take, lookup, insert, keys,
  includes, Object,
}
use vinium_lending.Effects.{Env, History, stored, ok, err, wrong_reserve_asset_setup}
use vinium_lending.Types.TokenId.{token_contract_ids}
use vinium_lending.Signers.{get_first_signer}
use vinium_lending.ContractsHelpers.{
  Contract, insert_contract_address_in_db, register_contract_in_json_db,
}
use vinium_lending.ContractsGetters.{get_address_by_id}
use vinium_lending.ContractsGetters.Database.{replay, recorded_address, registry_refinement}
use vinium_lending.MockTokens.{deploy_all_mock_tokens, get_all_mocked_tokens}
use vinium_lending.MockTokens.RoundTrip.{get_all_mocked_tokens-deploy_all_mock_tokens}
use vinium_lending.Polygon.{
  filter_lines, clean_source, license_identifier, solidity_pragma, experimental_abiencoder,
}
use vinium_lending.Polygon.Lines.{matching, others, filter_lines_lem}
use vinium_lending.Polygon.Clean.{lines_with, clean_source_bound}
use vinium_lending.Tasks.NewAsset.{is_symbol_valid, deploy_new_asset}
use vinium_lending.Tasks.NewAsset.Symbols.{
  market_symbols, is_symbol_valid_lem, deploy_new_asset_refused,
}
use vinium_lending.Tests.World.{calm, calm-IsLive, calm-IsDatabase}

abbrev pool_instance : Contract
pool_instance = record { factory = "LendingPool"; address = "0x21"; signer = "0xa1" }

abbrev one_record : History
one_record = stored "LendingPool" "avalanche" (record { address = "0x20"; deployer = none }) ∷ []

registry_refinement_example :
    let now = replay "avalanche" [] one_record in
    (get_address_by_id calm "LendingPool" one_record
      ≡ (ok (recorded_address (lookup "LendingPool" now)), one_record))
    × ((k : History) × (insert_contract_address_in_db calm "LendingPool" "0x22" one_record
          ≡ (ok tt, k))
        × (replay "avalanche" [] k
            ≡ insert "LendingPool" (record { address = "0x22"; deployer = none }) now))
    × ((k : History) × (register_contract_in_json_db calm "LendingPool" pool_instance one_record
          ≡ (ok tt, k))
        × (replay "avalanche" [] k
            ≡ insert "LendingPool" (record { address = "0x21"; deployer = some "0xa1" }) now))
registry_refinement_example =
    registry_refinement calm calm-IsDatabase [] (λ id. refl) calm-IsLive one_record "LendingPool"
      "0x22" pool_instance

first_of_calm : (h : History) → get_first_signer calm h ≡ (ok "0xa1", h)
unfolding get_first_signer
first_of_calm h = refl

get_all_mocked_tokens-deploy_all_mock_tokens_example :
    (tokens : Object Contract) × (k : History) × (keys tokens ≡ token_contract_ids)
    × (deploy_all_mock_tokens calm false [] ≡ (ok tokens, k))
    × (get_all_mocked_tokens calm k ≡ (ok tokens, k))
get_all_mocked_tokens-deploy_all_mock_tokens_example =
    get_all_mocked_tokens-deploy_all_mock_tokens calm calm-IsLive "0xa1" first_of_calm
      calm-IsDatabase (λ h. refl) []

is_symbol_valid_lem_example :
    is_symbol_valid calm "WBTC" "avalanche" [] ≡ (ok (includes market_symbols "WBTC"), [])
is_symbol_valid_lem_example = is_symbol_valid_lem calm "WBTC" []

deploy_new_asset_refused_example :
    deploy_new_asset calm "WBTC" true [] ≡ (err (wrong_reserve_asset_setup "WBTC" "avalanche"), [])
deploy_new_asset_refused_example = deploy_new_asset_refused calm "WBTC" true [] refl refl

abbrev chainless : Env
chainless = record calm { chain_id = some 0 }

abbrev two_sources : String
two_sources =
    "// SPDX-License-Identifier: MIT\npragma solidity 0.6.12;\n// SPDX-License-Identifier: MIT\npragma solidity 0.6.12;"

clean_source_bound_example :
    (lines_with license_identifier (clean_source two_sources) ≤ 1)
    × (lines_with solidity_pragma (clean_source two_sources) ≤ 1)
    × (lines_with experimental_abiencoder (clean_source two_sources) ≤ 1)
clean_source_bound_example = clean_source_bound two_sources

abbrev four_lines : List String
four_lines = "pragma a" ∷ "b" ∷ "pragma c" ∷ "d" ∷ []

filter_lines_lem_example :
    (others "pragma" (filter_lines "pragma" 1 four_lines) ≡ others "pragma" four_lines)
    × (matching "pragma" (filter_lines "pragma" 1 four_lines)
        ≡ take 1 (matching "pragma" four_lines))
filter_lines_lem_example = filter_lines_lem "pragma" 1 four_lines

-- The cleaned source keeps one mark of each kind.
two_sources_cleaned :
    clean_source two_sources ≡ "// SPDX-License-Identifier: MIT\npragma solidity 0.6.12;"
unfolding clean_source
two_sources_cleaned = refl
