-- ===== src/InitHelpers/Adds.antt =====
-- What the initialisation and the configuration of the reserves add to the history, under a test that
-- lets their transactions through.
use vinium_lending.Prelude.{
  String, Bool, true, ◌≡◌, ◌==◌, Option, none, some, List, [], ◌∷◌, keys, lookup, truthy, Object,
}
use vinium_lending.Effects.{
  Env, Call, InitReserveInput, ConfigureReserveInput, batch_init_reserve, configure_reserves,
  set_pool_admin, type_error, or_throw, ask,
}
use vinium_lending.Effects.Adds.{
  Adds, allows, adds_rules, Adds-bind, Adds-if, Adds-elim_option, Adds-pure, Adds-or_throw,
  Adds-ask, Adds-throw,
}
use vinium_lending.Types.Config.{IReserveParams, IInterestRateStrategyParams}
use vinium_lending.ContractsHelpers.{Contract, zero_address}
use vinium_lending.ContractsHelpers.Adds.{
  allows-Requests, send_and_wait-Adds, raw_insert_contract_address_in_db-Adds,
}
use vinium_lending.ContractsGetters.{find_index, entry_value, get_lending_pool}
use vinium_lending.ContractsGetters.Adds.{get_lending_pool-Adds, getter_rules}
use vinium_lending.ContractsDeployments.Adds.{deploy_rate_strategy-Adds}
use vinium_lending.ContractAddress.Adds.{get_contract_address_with_json_fallback-Adds}
use vinium_lending.InitHelpers.{
  InitSettings, InitState, strategy_address, init_reserve, init_step, init_loop,
  init_reserves_by_helper, reject_inputs, init_reserves_undefined, init_reserves_with,
  configure_step, configure_loop, configure_chunks, configure_reserves_by_helper, configure_input,
}

-- The test lets through the transactions that initialise and configure reserves.
pub record ReserveCalls (q : Call → Bool) : Type 0 where
  pub initializes : (inputs : List InitReserveInput) → q (batch_init_reserve inputs) ≡ true
  pub configures : (inputs : List ConfigureReserveInput) → q (configure_reserves inputs) ≡ true
  pub hands_over : (admin : String) → q (set_pool_admin admin) ≡ true

module _ (env : Env) {q : Call → Bool} (calls : ReserveCalls q) where
  strategy_address-Adds :
      (provider : Contract) (verify : Bool) (strategy : IInterestRateStrategyParams)
      (addresses : Object String)
      → Adds (allows q) (strategy_address env provider verify strategy addresses)
  unfolding strategy_address
  strategy_address-Adds provider verify strategy addresses =
      Adds-elim_option (truthy (lookup strategy.name addresses)) _ _
        (search (
          adds_rules,
          deploy_rate_strategy-Adds env q,
          raw_insert_contract_address_in_db-Adds env q,
        ))
        λ address. Adds-pure _

  init_reserve-Adds :
      (s : InitSettings) (provider : Contract) (symbol token : String) (params : IReserveParams)
      (st : InitState)
      → Adds (allows q) (init_reserve env s provider symbol token params st)
  unfolding init_reserve
  init_reserve-Adds s provider symbol token params st =
      search (adds_rules, strategy_address-Adds, get_contract_address_with_json_fallback-Adds env q)
        depth 8

  init_step-Adds :
      (s : InitSettings) (provider : Contract) (tokens : Object String) (symbol : String)
      (params : IReserveParams) (st : InitState)
      → Adds (allows q) (init_step env s provider tokens symbol params st)
  unfolding init_step
  init_step-Adds s provider tokens symbol params st =
      Adds-elim_option (truthy (lookup symbol tokens)) _ _ (Adds-pure _) λ token.
        Adds-bind (ask env (λ h. env.view_text h provider.address "getLendingPool" [])) _
          (Adds-ask env _)
          λ pool_address.
            Adds-bind (get_lending_pool env (some pool_address)) _
              (get_lending_pool-Adds env (allows-Requests q) _)
              λ pool.
                Adds-bind
                  (ask env (λ h.
                    env.view_text h pool.address "getReserveData.viTokenAddress" (token ∷ [])))
                  _ (Adds-ask env _)
                  λ address.
                    Adds-if (address == zero_address) _ _
                      (init_reserve-Adds s provider symbol token params st) (Adds-pure st)

  init_loop-Adds :
      (s : InitSettings) (provider : Contract) (tokens : Object String)
      (reserves : Object IReserveParams) (st : InitState)
      → Adds (allows q) (init_loop env s provider tokens reserves st)
  unfolding init_loop
  init_loop-Adds s provider tokens [] st = Adds-pure st
  init_loop-Adds s provider tokens ((symbol, params) ∷ reserves) st =
      Adds-bind _ _ (init_step-Adds s provider tokens symbol params st)
        λ st'. init_loop-Adds s provider tokens reserves st'

  init_reserves_by_helper-Adds :
      (s : InitSettings) (reserves : Object IReserveParams) (tokens : Object String)
      → Adds (allows q) (init_reserves_by_helper env s reserves tokens)
  unfolding init_reserves_by_helper
  init_reserves_by_helper-Adds s reserves tokens =
      search
        (
          adds_rules,
          getter_rules,
          allows-Requests,
          init_loop-Adds,
          send_and_wait-Adds env q,
          calls.initializes,
        )
        depth 8

  reject_inputs-Adds : (inputs : List InitReserveInput) → Adds (allows q) (reject_inputs env inputs)
  unfolding reject_inputs
  reject_inputs-Adds [] = Adds-pure tt
  reject_inputs-Adds (_ ∷ _) = Adds-throw _

  init_reserves_undefined-Adds :
      (s : InitSettings) (reserves : Object IReserveParams) (tokens : Object String)
      → Adds (allows q) (init_reserves_undefined env s reserves tokens)
  unfolding init_reserves_undefined
  init_reserves_undefined-Adds s reserves tokens =
      search (adds_rules, getter_rules, allows-Requests, init_loop-Adds, reject_inputs-Adds) depth 8

  pub init_reserves_with-Adds :
      (treasury incentives : Option String) (settings : String → String → InitSettings)
      (reserves : Object IReserveParams) (tokens : Object String)
      → Adds (allows q) (init_reserves_with env treasury incentives settings reserves tokens)
  unfolding init_reserves_with
  init_reserves_with-Adds (some treasury) (some incentives) settings reserves tokens =
      init_reserves_by_helper-Adds (settings treasury incentives) reserves tokens
  init_reserves_with-Adds none incentives settings reserves tokens =
      init_reserves_undefined-Adds (settings "" "") reserves tokens
  init_reserves_with-Adds (some _) none settings reserves tokens =
      init_reserves_undefined-Adds (settings "" "") reserves tokens

  configure_step-Adds :
      (helpers : Contract) (tokens : Object String) (symbol : String) (params : IReserveParams)
      → Adds (allows q) (configure_step env helpers tokens symbol params)
  unfolding configure_step
  configure_step-Adds helpers tokens symbol params =
      Adds-elim_option (truthy (lookup symbol tokens)) _ _ (Adds-pure _) λ _.
        Adds-if (params.base_ltv_as_collateral == "-1") _ _ (Adds-pure _) (
          Adds-bind (or_throw (entry_value tokens (find_index symbol (keys tokens))) type_error) _
            (Adds-or_throw _ _)
            λ token.
              Adds-bind
                (ask env (λ h.
                  env.view_flag h helpers.address
                    "getReserveConfigurationData.usageAsCollateralEnabled" (token ∷ [])))
                _ (Adds-ask env _)
                λ enabled.
                  Adds-if enabled _ _ (Adds-pure [])
                    (Adds-pure (configure_input token params ∷ [])))

  configure_loop-Adds :
      (helpers : Contract) (tokens : Object String) (reserves : Object IReserveParams)
      → Adds (allows q) (configure_loop env helpers tokens reserves)
  unfolding configure_loop
  configure_loop-Adds helpers tokens [] = Adds-pure []
  configure_loop-Adds helpers tokens ((symbol, params) ∷ reserves) =
      Adds-bind _ _ (configure_step-Adds helpers tokens symbol params)
        λ pushed. Adds-bind _ _ (configure_loop-Adds helpers tokens reserves) λ rest. Adds-pure _

  configure_chunks-Adds :
      (provider deployer : Contract) (admin : String) (inputs : List ConfigureReserveInput)
      → Adds (allows q) (configure_chunks env provider deployer admin inputs)
  unfolding configure_chunks
  configure_chunks-Adds provider deployer admin [] = Adds-pure tt
  configure_chunks-Adds provider deployer admin (input ∷ inputs) =
      search (adds_rules, send_and_wait-Adds env q, calls.configures, calls.hands_over) depth 8

  pub configure_reserves_by_helper-Adds :
      (reserves : Object IReserveParams) (tokens : Object String) (helpers : Contract)
      (admin : String)
      → Adds (allows q) (configure_reserves_by_helper env reserves tokens helpers admin)
  unfolding configure_reserves_by_helper
  configure_reserves_by_helper-Adds reserves tokens helpers admin =
      search (adds_rules, getter_rules, allows-Requests, configure_loop-Adds, configure_chunks-Adds)
        depth 8
