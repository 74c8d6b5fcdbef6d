-- ===== src/MockTokens/RoundTrip.antt =====
-- The getters of mock tokens, after their deployment.
use vinium_lending.Prelude.{
  String, Bool, true, false, not, ◌&&◌, ◌||◌, ◌==◌, ◌≡◌, refl, ap, ◌∙◌, Option, some, List, [], ◌∷◌,
  map, includes, insert, is_truthy, keys, lookup, Object, arith,
}
use vinium_lending.Effects.{Env, IsLive, IsDatabase, Arg, one, DbEntry, History, ok, resume}
use vinium_lending.Effects.Laws.{perform_live}
use vinium_lending.Types.ContractId.{id_value, mintable_erc20}
use vinium_lending.Types.TokenId.{token_contract_ids}
use vinium_lending.Signers.{get_first_signer}
use vinium_lending.ContractsHelpers.{Contract, ViniumPools, register_contract_in_json_db}
use vinium_lending.ContractsHelpers.Registry.{record_of}
use vinium_lending.ContractsGetters.{connect_or_db, connect, db_address, get_mintable_erc20}
use vinium_lending.ContractsDeployments.{deploy_mintable_erc20}
use vinium_lending.ContractsDeployments.Records.{instance_of, saved, deploy_and_save_live}
use vinium_lending.Configuration.{get_reserves_config_by_pool}
use vinium_lending.MockTokens.{
  upper_in, to_upper_case, decimals_or_18, deploy_tokens, get_tokens, deploy_all_mock_tokens,
  get_all_mocked_tokens,
}

-- No two tokens have the same record, and none has that of the last MintableERC20.
distinct_records : List String → Bool
distinct_records [] = true
distinct_records (s ∷ ss) =
    let rest = distinct_records ss in
    not (includes (map to_upper_case ss) (to_upper_case s))
    && (not (id_value mintable_erc20 == to_upper_case s) && rest)

not-and-parts : (b r : Bool) → (not b && r) ≡ true → (b ≡ false) × (r ≡ true)
not-and-parts true r e = ground arith
not-and-parts false r e = (refl, e)

or-parts : (a b : Bool) → (a || b) ≡ false → (a ≡ false) × (b ≡ false)
or-parts true b e = ground arith
or-parts false b e = (refl, e)

both-false : (a b : Bool) → a ≡ false → (a && b) ≡ false
both-false a b e = rw e refl

-- The tokens of a loop, put into what it has so far.
abbrev insert_all : Object Contract → Object Contract → Object Contract
insert_all [] tokens = tokens
insert_all ((s, c) ∷ pairs) tokens = insert_all pairs (insert s c tokens)

module _ (env : Env) (live : IsLive env) (signer : String)
    (first : (h : History) → get_first_signer env h ≡ (ok signer, h))
    (decimals : String → String) where
  abbrev args_of : String → List Arg
  args_of s = one s ∷ one s ∷ one (decimals s) ∷ []

  abbrev token_of : String → History → Contract
  token_of s h = instance_of env live signer first "MintableERC20" (args_of s) h

  abbrev after : String → History → History
  after s h =
      record_of env live (to_upper_case s) (token_of s h)
      ∷ saved env live signer first "MintableERC20" (id_value mintable_erc20) (args_of s) h

  -- The tokens that the loop deploys, and the history that it leaves.
  abbrev pub tokens_of : List String → History → Object Contract
  tokens_of [] h = []
  tokens_of (s ∷ ss) h = (s, token_of s h) ∷ tokens_of ss (after s h)

  abbrev pub after_all : List String → History → History
  after_all [] h = h
  after_all (s ∷ ss) h = after_all ss (after s h)

  deploy_tokens_live :
      (ss : List String) (tokens : Object Contract) (h : History)
      → deploy_tokens env decimals false ss tokens h
        ≡ (ok (insert_all (tokens_of ss h) tokens), after_all ss h)
  unfolding deploy_tokens deploy_mintable_erc20 register_contract_in_json_db
  deploy_tokens_live [] tokens h = refl
  deploy_tokens_live (s ∷ ss) tokens h =
      ap (resume _) (deploy_and_save_live env live signer first _ _ (args_of s) h)
      ∙ (ap (resume _) (perform_live env live _ _)
          ∙ deploy_tokens_live ss (insert s (token_of s h) tokens) (after s h))

  module _ (database : IsDatabase env) where
    abbrev record_at : History → String → Option DbEntry
    record_at h id = env.db_get h id env.network_name

    -- The records of other ids stay.
    kept :
        (ss : List String) (h : History) (id : String)
        → includes (map to_upper_case ss) id ≡ false
        → (id_value mintable_erc20 == id) ≡ false
        → record_at (after_all ss h) id ≡ record_at h id
    kept [] h id other last = refl
    kept (s ∷ ss) h id other last =
        let (here, rest) =
          or-parts (to_upper_case s == id) (includes (map to_upper_case ss) id) other in
        kept ss (after s h) id rest last
        ∙ (database.get_other _ id env.network_name (to_upper_case s) env.network_name _
              (both-false _ _ here)
            ∙ (database.get_other _ id env.network_name (id_value mintable_erc20) env.network_name _
                  (both-false _ _ last)
                ∙ database.get_unstored _ h id env.network_name refl))

    db_address_at :
        (k : History) (id : String) (e : DbEntry)
        → record_at k id ≡ some e
        → db_address env id k ≡ (ok e.address, k)
    unfolding db_address
    db_address_at k id e at = rw at refl

    get_mintable_erc20_at :
        (k : History) (address : String)
        → is_truthy address ≡ true
        → get_mintable_erc20 env (some address) k
          ≡ (ok (record { factory = "MintableERC20"; address = address; signer = signer }), k)
    unfolding get_mintable_erc20 connect_or_db connect
    get_mintable_erc20_at k address e = rw e (ap (resume _) (first k))

    module _ (addresses : (h : History) → is_truthy (env.new_address h) ≡ true) where
      get_tokens_live :
          (ss : List String) (tokens : Object Contract) (h : History)
          → distinct_records ss ≡ true
          → get_tokens env ss tokens (after_all ss h)
            ≡ (ok (insert_all (tokens_of ss h) tokens), after_all ss h)
      unfolding get_tokens distinct_records
      get_tokens_live [] tokens h distinct = refl
      get_tokens_live (s ∷ ss) tokens h distinct =
          let id = to_upper_case s in
          let c = token_of s h in
          let (fresh, more) = not-and-parts (includes (map to_upper_case ss) id) _ distinct in
          let (last, rest) = not-and-parts (id_value mintable_erc20 == id) _ more in
          ap (resume _) (
            db_address_at (after_all ss (after s h)) id
              (record { address = c.address; deployer = some signer })
              (kept ss (after s h) id fresh last ∙ database.get_stored _ id env.network_name _))
          ∙ (ap (resume _) (get_mintable_erc20_at _ c.address (addresses _))
              ∙ get_tokens_live ss (insert s c tokens) (after s h) rest)

-- Where the network has a first signer, every transaction goes through, the database keeps what is
-- written and no contract has the empty address, the deployment of all mock tokens returns a token for
-- each symbol, and the getter then returns the same tokens and does nothing.
pub get_all_mocked_tokens-deploy_all_mock_tokens :
    (env : Env) (live : IsLive env) (signer : String)
    → ((h : History) → get_first_signer env h ≡ (ok signer, h))
    → IsDatabase env
    → ((h : History) → is_truthy (env.new_address h) ≡ true)
    → (h : History)
    → (tokens : Object Contract) × (k : History) × (keys tokens ≡ token_contract_ids)
      × (deploy_all_mock_tokens env false h ≡ (ok tokens, k))
      × (get_all_mocked_tokens env k ≡ (ok tokens, k))
unfolding deploy_all_mock_tokens get_all_mocked_tokens distinct_records to_upper_case upper_in
    id_value
get_all_mocked_tokens-deploy_all_mock_tokens env live signer first database addresses h =
    let decimals = λ (symbol : String).
      decimals_or_18 (lookup symbol (get_reserves_config_by_pool env ViniumPools.proto)) in
    (
      _,
      _,
      refl,
      deploy_tokens_live env live signer first decimals token_contract_ids [] h,
      get_tokens_live env live signer first decimals database addresses token_contract_ids [] h
          refl,
    )
