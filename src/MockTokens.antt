-- ===== src/MockTokens.antt =====
-- The tokens of test networks: `deployAllMockTokens` and `deployMockTokens` of
-- helpers/contracts-deployments.ts, `getMockedTokens` and `getAllMockedTokens` of
-- helpers/contracts-getters.ts, and helpers/mock-helpers.ts.
pub mod RoundTrip
use Prim.Native.Char.{Char, code}
use Prim.Native.String
use vinium_lending.Prelude.{
  String, Bool, Option, none, some, List, [], ◌∷◌, if◌then◌else◌, nat_beq, truthy, lookup, insert,
  keys, Object,
}
use vinium_lending.Effects.{Env, M, pure, ◌>>=◌, ◌>>◌}
use vinium_lending.Types.Config.{IReserveParams, ICommonConfiguration}
use vinium_lending.Types.TokenId.{token_contract_ids}
use vinium_lending.ContractsHelpers.{Contract, ViniumPools, register_contract_in_json_db}
use vinium_lending.ContractsGetters.{db_address, get_mintable_erc20}
use vinium_lending.ContractsDeployments.{deploy_mintable_erc20}
use vinium_lending.Configuration.{get_reserves_config_by_pool}

-- `toUpperCase` of an ASCII text: the letter in the place of the same letter.
upper_in : String → String → Char → Char
upper_in String.[] uppers c = c
upper_in (String.◌∷◌ l lowers) String.[] c = c
upper_in (String.◌∷◌ l lowers) (String.◌∷◌ u uppers) c =
    let rest = upper_in lowers uppers c in if nat_beq (code l) (code c) then u else rest

abbrev upper : Char → Char
upper = upper_in "abcdefghijklmnopqrstuvwxyz" "ABCDEFGHIJKLMNOPQRSTUVWXYZ"

unfoldable pub to_upper_case : String → String
unfolding upper_in
to_upper_case String.[] = ""
to_upper_case (String.◌∷◌ c s) = String.◌∷◌ (upper c) (to_upper_case s)

-- `configData ? configData.reserveDecimals : decimals`
abbrev pub decimals_or_18 : Option IReserveParams → String
decimals_or_18 none = "18"
decimals_or_18 (some params) = params.reserve_decimals

-- `configData[tokenSymbol].reserveDecimals || defaultDecimals.toString()`
abbrev pub truthy_or_18 : Option String → String
truthy_or_18 none = "18"
truthy_or_18 (some decimals) = decimals

-- The `reduce` of `getAllTokenAddresses`, over the entries left.
pub token_addresses_from : Object Contract → Object String → Object String
token_addresses_from [] accum = accum
token_addresses_from ((symbol, token) ∷ tokens) accum =
    token_addresses_from tokens (insert symbol token.address accum)

unfoldable pub get_all_token_addresses : Object Contract → Object String
unfolding token_addresses_from
get_all_token_addresses tokens = token_addresses_from tokens []

-- It is the same function, for aggregators.
unfoldable pub get_all_aggregators_addresses : Object Contract → Object String
unfolding token_addresses_from
get_all_aggregators_addresses aggregators = token_addresses_from aggregators []

module _ (env : Env) where
  -- The loop of both deployments, with the tokens so far: a token is deployed, and recorded under its
  -- symbol in capitals.
  unfoldable pub deploy_tokens :
      (decimals : String → String) → Bool → List String → Object Contract → M (Object Contract)
  deploy_tokens decimals verify [] tokens = pure tokens
  deploy_tokens decimals verify (symbol ∷ symbols) tokens = do
    token ← deploy_mintable_erc20 env symbol symbol (decimals symbol) verify
    register_contract_in_json_db env (to_upper_case symbol) token
    deploy_tokens decimals verify symbols (insert symbol token tokens)

  unfoldable pub deploy_all_mock_tokens : Bool → M (Object Contract)
  unfolding deploy_tokens
  deploy_all_mock_tokens verify =
      let proto_config_data = get_reserves_config_by_pool env ViniumPools.proto in
      deploy_tokens (λ symbol. decimals_or_18 (lookup symbol proto_config_data)) verify
        token_contract_ids []

  unfoldable pub deploy_mock_tokens : ICommonConfiguration → Bool → M (Object Contract)
  unfolding deploy_tokens
  deploy_mock_tokens config verify =
      deploy_tokens
        (λ symbol. elim (lookup symbol config.reserves_config) [
          | none ↦ "18"
          | some params ↦ truthy_or_18 (truthy (some params.reserve_decimals))
        ])
        verify (keys config.reserves_config) []

  -- The `reduce` of both getters.
  unfoldable pub get_tokens : List String → Object Contract → M (Object Contract)
  get_tokens [] accumulator = pure accumulator
  get_tokens (symbol ∷ symbols) accumulator = do
    address ← db_address env (to_upper_case symbol)
    token ← get_mintable_erc20 env (some address)
    get_tokens symbols (insert symbol token accumulator)

  unfoldable pub get_mocked_tokens : ICommonConfiguration → M (Object Contract)
  unfolding get_tokens
  get_mocked_tokens config = get_tokens (keys config.reserves_config) []

  unfoldable pub get_all_mocked_tokens : M (Object Contract)
  unfolding get_tokens
  get_all_mocked_tokens = get_tokens token_contract_ids []
