-- ===== src/Tests/Data.antt =====
-- The theorems on arrays, objects and parameters at concrete inputs.
use vinium_lending.Prelude.{
  ℕ, ◌+◌, ◌*◌, ◌<◌, String, ◌≡◌, refl, not, some, List, [], ◌∷◌, map, concat, includes, length, All,
  Object, arith,
}
use vinium_lending.Effects.{Artifact, ok, err, type_error}
use vinium_lending.Effects.Ensures.{Ensures}
use vinium_lending.Types.Config.{ICommonConfiguration}
use vinium_lending.Types.ContractId.{id_of, id_value, lending_pool, id_of-id_value}
use vinium_lending.MiscUtils.{chunk, omit, filter_map_by}
use vinium_lending.MiscUtils.Chunk.{Fits, chunk_partition}
use vinium_lending.MiscUtils.Filter.{
  filter_entries, omit-eq-filter_entries, filter_map_by-eq-filter_entries,
}
use vinium_lending.ContractsGetters
use vinium_lending.ContractsGetters.Pairs.{priced, get_pairs_token_aggregator-priced}
use vinium_lending.InitHelpers
use vinium_lending.InitHelpers.Pairs.{IsPriced, named_out, get_pairs_token_aggregator_total}
use vinium_lending.ContractsHelpers.{link_bytecode, get_param_per_network}
use vinium_lending.ContractsHelpers.Linking.{length-link_bytecode}
use vinium_lending.ContractsHelpers.Params.{get_param_per_network_lem}
use vinium_lending.Configuration.{ConfigNames, load_pool_config}
use vinium_lending.Configuration.Risk.{IsAccepted, load_pool_config-IsAccepted}
use vinium_lending.Effects.{History}
use vinium_lending.Tests.World.{calm}

abbrev five : List ℕ
five = 1 ∷ 2 ∷ 3 ∷ 4 ∷ 5 ∷ []

abbrev tokens : Object String
tokens = ("DAI", "0xd") ∷ ("WETH", "0xe") ∷ ("USDC", "0xf") ∷ []

abbrev sources : Object String
sources = ("USDC", "0x5") ∷ ("DAI", "0x6") ∷ []

chunk_partition_example :
    (concat (chunk five 2) ≡ five)
    × All (Fits 2) (chunk five 2)
    × (length (chunk five 2) * 2 < 5 + 2)
chunk_partition_example = chunk_partition five 2 (omega arith)

omit-eq-filter_entries_example :
    omit tokens ("WETH" ∷ []) ≡ filter_entries (λ k. not (includes ("WETH" ∷ []) k)) tokens
omit-eq-filter_entries_example =
    omit-eq-filter_entries tokens ("WETH" ∷ []) (refl, (refl, (refl, tt)))

filter_map_by-eq-filter_entries_example :
    filter_map_by tokens (includes ("DAI" ∷ "USDC" ∷ []))
    ≡ filter_entries (includes ("DAI" ∷ "USDC" ∷ [])) tokens
filter_map_by-eq-filter_entries_example =
    filter_map_by-eq-filter_entries tokens (includes ("DAI" ∷ "USDC" ∷ []))
      (refl, (refl, (refl, tt)))

get_pairs_token_aggregator-priced_example :
    ContractsGetters.get_pairs_token_aggregator tokens sources "ETH"
    ≡ ("0xd" ∷ "0xf" ∷ [], "0x6" ∷ "0x5" ∷ [])
unfolding ContractsGetters.get_quote_currencies
get_pairs_token_aggregator-priced_example =
    get_pairs_token_aggregator-priced tokens sources "ETH" (refl, (refl, (refl, tt)))

get_pairs_token_aggregator_total_example :
    let kept = filter_entries (λ k. not (includes named_out k)) tokens in
    let pairs = priced sources kept in
    (IsPriced sources kept
      → InitHelpers.get_pairs_token_aggregator tokens sources
        ≡ ok (map (λ p. p.0) pairs, map (λ p. p.1) pairs))
    × (¬ (IsPriced sources kept)
        → InitHelpers.get_pairs_token_aggregator tokens sources ≡ err type_error)
get_pairs_token_aggregator_total_example =
    get_pairs_token_aggregator_total tokens sources (refl, (refl, (refl, tt)))

abbrev artifact : Artifact
artifact = record {
  bytecode = 48 ∷ 120 ∷ 1 ∷ 2 ∷ 3 ∷ 4 ∷ 5 ∷ 6 ∷ [];
  link_references = ("Lib.sol", ("Lib", record { start = 1; bytes = 1 } ∷ []) ∷ []) ∷ [];
}

abbrev libraries : Object (List ℕ)
libraries = ("Lib", 48 ∷ 120 ∷ 7 ∷ 8 ∷ []) ∷ []

length-link_bytecode_example : length (link_bytecode artifact libraries) ≡ 8
length-link_bytecode_example =
    length-link_bytecode artifact libraries (((((refl, omega arith), tt)), tt), tt)

abbrev by_network : Object String
by_network = ("buidlerevm", "1") ∷ ("hardhat", "2") ∷ []

get_param_per_network_lem_example : get_param_per_network calm by_network "hardhat" ≡ some "1"
get_param_per_network_lem_example = get_param_per_network_lem calm by_network "hardhat"

load_pool_config-IsAccepted_example :
    Ensures
      (λ (config : ICommonConfiguration) (k : History). All IsAccepted config.reserves_config)
      (load_pool_config calm ConfigNames.avalanche [])
load_pool_config-IsAccepted_example = load_pool_config-IsAccepted calm ConfigNames.avalanche []

id_of-id_value_example : id_of (id_value lending_pool) ≡ some lending_pool
id_of-id_value_example = id_of-id_value lending_pool
