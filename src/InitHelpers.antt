-- ===== src/InitHelpers.antt =====
-- helpers/init-helpers.ts: the initialisation and the configuration of the reserves, and its
-- variant of the pairs of assets and price sources.
pub mod Pairs
pub mod Init
pub mod Configure
pub mod Adds
use vinium_lending.Prelude.{
  ℕ, zero, suc, String, Bool, true, false, not, Option, none, some, List, [], ◌∷◌, ◌++◌, map,
  if◌then◌else◌, ◌==◌, truthy, lookup, insert, keys, Object, cat,
}
use vinium_lending.Effects.{
  Env, InitReserveInput, ConfigureReserveInput, batch_init_reserve, configure_reserves,
  set_pool_admin, M, Result, ok, err, pure, throw, or_throw, rejected, type_error, ask, for_each,
  ◌>>=◌, ◌>>◌,
}
use vinium_lending.Types.ContractId.{id_value, stable_vd_token, variable_vd_token}
use vinium_lending.Types.Config.{IReserveParams, IInterestRateStrategyParams}
use vinium_lending.MiscUtils.{chunk, omit}
use vinium_lending.ContractsHelpers.{
  Contract, zero_address, send_and_wait, raw_insert_contract_address_in_db,
}
use vinium_lending.ContractsGetters.{
  find_index, entry_value, get_lending_pool, get_lending_pool_addresses_provider,
  get_lending_pool_configurator_proxy, get_vi_tokens_and_rates_helper,
}
use vinium_lending.ContractsDeployments.{deploy_rate_strategy}
use vinium_lending.Configuration.{ConfigNames}
use vinium_lending.ContractAddress.{get_contract_address_with_json_fallback}

-- Its `switch` has a default case only.
abbrev pub get_vi_token_extra_params : (vi_token_name token_address : String) → String
get_vi_token_extra_params vi_token_name token_address = "0x10"

-- The parameters of `initReservesByHelper` that its loop reads.
pub record InitSettings : Type 0 where
  pub vi_token_name_prefix : String
  pub stable_vd_token_name_prefix : String
  pub variable_vd_token_name_prefix : String
  pub treasury_address : String
  pub incentives_controller : String
  pub pool_name : ConfigNames
  pub verify : Bool

-- The variables of its loop. `rateStrategies` only holds the arguments of the next deployment.
pub record InitState : Type 0 where
  pub reserve_symbols : List String
  pub init_input_params : List InitReserveInput
  pub strategy_addresses : Object String

abbrev pub with_space : String → String → String
with_space a b = cat a (cat " " b)

-- `initInputParams.push({ … })`
abbrev pub init_input :
    InitSettings
    → String
    → String
    → IReserveParams
    → (strategy vi stable variable : String) → InitReserveInput
init_input s symbol token params strategy vi stable variable = record {
  vi_token_impl = vi;
  stable_vd_token_impl = stable;
  variable_vd_token_impl = variable;
  underlying_asset_decimals = params.reserve_decimals;
  interest_rate_strategy_address = strategy;
  underlying_asset = token;
  treasury = s.treasury_address;
  incentives_controller = s.incentives_controller;
  underlying_asset_name = symbol;
  vi_token_name = with_space s.vi_token_name_prefix symbol;
  vi_token_symbol = cat "vi" symbol;
  variable_vd_token_name = with_space s.variable_vd_token_name_prefix symbol;
  variable_vd_token_symbol = cat "variableVd" symbol;
  stable_vd_token_name = with_space s.stable_vd_token_name_prefix symbol;
  stable_vd_token_symbol = cat "stableVd" symbol;
  params = get_vi_token_extra_params params.vi_token_impl token;
}

-- `inputParams.push({ … })`
abbrev pub configure_input : String → IReserveParams → ConfigureReserveInput
configure_input token params = record {
  asset = token;
  base_ltv = params.base_ltv_as_collateral;
  liquidation_threshold = params.liquidation_threshold;
  liquidation_bonus = params.liquidation_bonus;
  reserve_factor = params.reserve_factor;
  stable_borrowing_enabled = params.stable_borrow_rate_enabled;
  borrowing_enabled = params.borrowing_enabled;
}

abbrev pub init_chunks : ℕ
init_chunks = 1

abbrev pub no_reserves : InitState
no_reserves = record { reserve_symbols = []; init_input_params = []; strategy_addresses = [] }

abbrev pub enable_chunks : ℕ
enable_chunks = 20

-- The loop of `getPairsTokenAggregator`: an asset without a source throws.
pairs_of : Object String → Object String → Result (List (String × String))
pairs_of aggregators [] = ok []
pairs_of aggregators ((symbol, address) ∷ assets) =
    elim (entry_value aggregators (find_index symbol (keys aggregators))) [
      | none ↦ err type_error
      | some aggregator ↦ elim (pairs_of aggregators assets) [
        | ok pairs ↦ ok ((address, aggregator) ∷ pairs)
        | err e ↦ err e
      ]
    ]

-- The destructured rest has neither ETH nor WETH, so the test inside the source's `map` passes.
unfoldable pub get_pairs_token_aggregator :
    Object String → Object String → Result (List String × List String)
unfolding pairs_of omit
get_pairs_token_aggregator all_assets aggregators =
    elim (pairs_of aggregators (omit all_assets ("ETH" ∷ "USD" ∷ "WETH" ∷ []))) [
      | ok pairs ↦ ok (map (λ p. p.0) pairs, map (λ p. p.1) pairs)
      | err e ↦ err e
    ]

module _ (env : Env) where
  -- The address of a reserve's strategy, deployed and recorded at its first use.
  strategy_address :
      Contract → Bool → IInterestRateStrategyParams → Object String → M (String × Object String)
  strategy_address provider verify strategy addresses =
      elim (truthy (lookup strategy.name addresses)) [
        | some address ↦ pure (address, addresses)
        | none ↦ do
          address ←
              deploy_rate_strategy env strategy.name provider.address
                strategy.optimal_utilization_rate strategy.base_variable_borrow_rate
                strategy.variable_rate_slope1 strategy.variable_rate_slope2
                strategy.stable_rate_slope1 strategy.stable_rate_slope2 verify
          raw_insert_contract_address_in_db env strategy.name address
          pure (address, insert strategy.name address addresses)
      ]

  -- The rest of the loop's body, for a reserve that is not initialised yet.
  init_reserve :
      InitSettings → Contract → String → String → IReserveParams → InitState → M InitState
  unfolding strategy_address
  init_reserve s provider symbol token params st = do
    (strategy, addresses) ← strategy_address provider s.verify params.strategy st.strategy_addresses
    vi ← get_contract_address_with_json_fallback env params.vi_token_impl s.pool_name
    stable ← get_contract_address_with_json_fallback env (id_value stable_vd_token) s.pool_name
    variable ← get_contract_address_with_json_fallback env (id_value variable_vd_token) s.pool_name
    let input = init_input s symbol token params strategy vi stable variable
    pure (record {
      reserve_symbols = st.reserve_symbols ++ symbol ∷ [];
      init_input_params = st.init_input_params ++ input ∷ [];
      strategy_addresses = addresses;
    })

  -- The loop's body: reserves with no token address, or with a viToken, are skipped.
  init_step :
      InitSettings → Contract → Object String → String → IReserveParams → InitState → M InitState
  unfolding init_reserve
  init_step s provider tokens symbol params st = elim (truthy (lookup symbol tokens)) [
    | none ↦ pure st
    | some token ↦ do
      pool_address ← ask env (λ h. env.view_text h provider.address "getLendingPool" [])
      pool ← get_lending_pool env (some pool_address)
      vi_token_address ←
          ask env (λ h. env.view_text h pool.address "getReserveData.viTokenAddress" (token ∷ []))
      if vi_token_address == zero_address
          then init_reserve s provider symbol token params st
          else pure st
  ]

  unfoldable pub init_loop :
      InitSettings → Contract → Object String → Object IReserveParams → InitState → M InitState
  unfolding init_step
  init_loop s provider tokens [] st = pure st
  init_loop s provider tokens ((symbol, params) ∷ reserves) st = do
    st' ← init_step s provider tokens symbol params st
    init_loop s provider tokens reserves st'

  unfoldable pub init_reserves_by_helper :
      InitSettings → Object IReserveParams → Object String → M (Unit {0})
  unfolding init_loop
  init_reserves_by_helper s reserves tokens = do
    provider ← get_lending_pool_addresses_provider env none
    st ← init_loop s provider tokens reserves no_reserves
    configurator ← get_lending_pool_configurator_proxy env none
    for_each (λ inputs. send_and_wait env configurator (batch_init_reserve inputs))
        (chunk st.init_input_params init_chunks)

  -- An input with an undefined address is rejected before its transaction is sent.
  reject_inputs : List InitReserveInput → M (Unit {0})
  reject_inputs [] = pure tt
  reject_inputs (_ ∷ _) = throw rejected

  -- `initReservesByHelper` with a treasury or an incentives controller that is undefined, which the
  -- loop only copies: the settings hold any text in its place.
  init_reserves_undefined : InitSettings → Object IReserveParams → Object String → M (Unit {0})
  unfolding init_loop reject_inputs
  init_reserves_undefined s reserves tokens = do
    provider ← get_lending_pool_addresses_provider env none
    st ← init_loop s provider tokens reserves no_reserves
    _ ← get_lending_pool_configurator_proxy env none
    reject_inputs st.init_input_params

  -- `initReservesByHelper` with the treasury and the incentives controller of a configuration.
  unfoldable pub init_reserves_with :
      (treasury incentives : Option String)
      → (String → String → InitSettings)
      → Object IReserveParams
      → Object String
      → M (Unit {0})
  unfolding init_reserves_by_helper init_reserves_undefined
  init_reserves_with (some treasury) (some incentives) settings =
      init_reserves_by_helper (settings treasury incentives)
  init_reserves_with none incentives settings = init_reserves_undefined (settings "" "")
  init_reserves_with (some _) none settings = init_reserves_undefined (settings "" "")

  -- The body of its loop: the input that it pushes, if it does.
  configure_step :
      Contract → Object String → String → IReserveParams → M (List ConfigureReserveInput)
  configure_step helpers tokens symbol params = elim (truthy (lookup symbol tokens)) [
    | none ↦ pure []
    | some _ ↦ if params.base_ltv_as_collateral == "-1" then pure [] else do
      token ← or_throw (entry_value tokens (find_index symbol (keys tokens))) type_error
      already_enabled ← ask env (λ h.
          env.view_flag h helpers.address "getReserveConfigurationData.usageAsCollateralEnabled"
            (token ∷ []))
      if already_enabled then pure [] else pure (configure_input token params ∷ [])
  ]

  configure_loop : Contract → Object String → Object IReserveParams → M (List ConfigureReserveInput)
  unfolding configure_step
  configure_loop helpers tokens [] = pure []
  configure_loop helpers tokens ((symbol, params) ∷ reserves) = do
    pushed ← configure_step helpers tokens symbol params
    rest ← configure_loop helpers tokens reserves
    pure (pushed ++ rest)

  -- What follows the loop, if there is a token to configure.
  configure_chunks :
      (provider deployer : Contract) → String → List ConfigureReserveInput → M (Unit {0})
  configure_chunks provider deployer admin [] = pure tt
  configure_chunks provider deployer admin (input ∷ inputs) = do
    send_and_wait env provider (set_pool_admin deployer.address)
    for_each (λ c. send_and_wait env deployer (configure_reserves c))
        (chunk (input ∷ inputs) enable_chunks)
    send_and_wait env provider (set_pool_admin admin)

  unfoldable pub configure_reserves_by_helper :
      Object IReserveParams → Object String → Contract → String → M (Unit {0})
  unfolding configure_loop configure_chunks
  configure_reserves_by_helper reserves tokens helpers admin = do
    provider ← get_lending_pool_addresses_provider env none
    deployer ← get_vi_tokens_and_rates_helper env none
    inputs ← configure_loop helpers tokens reserves
    configure_chunks provider deployer admin inputs
