-- ===== src/Tasks/Verifications/Adds.antt =====
-- What the verification tasks add to the history.
use vinium_lending.Prelude.{
  String, Bool, true, false, refl, Option, none, some, List, [], ◌∷◌, lookup, Object, ◌==◌,
}
use vinium_lending.Effects.{
  Env, Arg, Action, Call, deployed, stored, M, or_throw, reserves_config_not_found, requested,
  verified_tenderly, verified_etherscan,
}
use vinium_lending.Effects.Adds.{
  Adds, adds_rules, Adds-if, Adds-bind, Adds-when, Adds-ask, Adds-or_throw, Adds-pure, Adds-perform,
  Adds-read,
}
use vinium_lending.Types.Config.{IReserveParams, ICommonConfiguration}
use vinium_lending.Signers.Adds.{Requests, get_first_signer-Adds}
use vinium_lending.Verification.{check_verification}
use vinium_lending.Verification.Adds.{
  Verifies, check_verification-Adds, verify_contract-Adds, verify_etherscan_contract-Adds,
}
use vinium_lending.MiscUtils.{not_falsy_or_zero_address}
use vinium_lending.ContractsHelpers.{
  Contract, get_param_per_network, deploy_linked, with_save_and_verify,
  register_contract_in_json_db,
}
use vinium_lending.ContractsDeployments.{deploy_and_save, deploy_weth_mocked}
use vinium_lending.Types.ContractId.{id_value}
use vinium_lending.ContractsHelpers.Adds.{wait_for_tx-Adds}
use vinium_lending.ContractsGetters.Adds.{getter_rules}
use vinium_lending.Configuration.{ConfigNames}
use vinium_lending.Configuration.Adds.{
  load_pool_config-Adds, get_genesis_pool_admin-Adds, get_lending_rate_oracles-Adds,
  get_quote_currency-Adds, get_wrapped_native_token_address-Adds,
}
use vinium_lending.Tasks.Oracles.Adds.{pairs_or_throw-Adds}
use vinium_lending.Tasks.Verifications.{
  given_or_recorded, reserve_data, verify_implementations, verify_general, verify_token_proxy,
  verify_token, verify_reserve, verify_reserves, verify_tokens, verify_vinium_oracle,
  verify_rate_oracle, verify_oracles, verify_sc, avalanche_mainnet,
}

-- No transaction at all.
abbrev pub no_call : Call → Bool
no_call _ = false

-- Requests and verifications only: nothing is deployed, sent or recorded.
abbrev pub only_verifies : Action → Bool
only_verifies (requested _ _) = true
only_verifies (verified_tenderly _ _) = true
only_verifies (verified_etherscan _ _ _) = true
only_verifies _ = false

only_verifies-Requests : Requests only_verifies
only_verifies-Requests = record { request = λ method args. refl }

only_verifies-Verifies : Verifies only_verifies
only_verifies-Verifies = record {
  requests = only_verifies-Requests;
  tenderly = λ id address. refl;
  etherscan = λ address args related. refl;
}

-- Requests, verifications, and the deployment and the record of the mock of the wrapped native token.
abbrev pub mocks_weth : Action → Bool
mocks_weth (requested _ _) = true
mocks_weth (verified_tenderly _ _) = true
mocks_weth (verified_etherscan _ _ _) = true
mocks_weth (deployed factory _ _ _) = factory == "WETH9Mocked"
mocks_weth (stored id _ _) = id == "WETHMocked"
mocks_weth _ = false

mocks_weth-Requests : Requests mocks_weth
mocks_weth-Requests = record { request = λ method args. refl }

mocks_weth-Verifies : Verifies mocks_weth
mocks_weth-Verifies = record {
  requests = mocks_weth-Requests;
  tenderly = λ id address. refl;
  etherscan = λ address args related. refl;
}

module _ (env : Env) where
  mock-Adds : Adds mocks_weth (deploy_weth_mocked env false)
  unfolding deploy_weth_mocked deploy_and_save deploy_linked with_save_and_verify
      register_contract_in_json_db id_value
  mock-Adds =
      Adds-bind _ _
        (Adds-bind _ _ (get_first_signer-Adds env mocks_weth-Requests)
          λ signer. Adds-bind _ _ (Adds-perform env _ refl) λ _. Adds-read _)
        λ instance_.
          Adds-bind _ _ (wait_for_tx-Adds env)
            λ _. Adds-bind _ _ (Adds-perform env _ refl) λ _. Adds-pure instance_

  given_or_recorded-Adds :
      {p : Action → Bool} (getter : Option String → M Contract) (address : Option String)
      → ((target : Option String) → Adds p (getter target))
      → Adds p (given_or_recorded env getter address)
  unfolding given_or_recorded
  given_or_recorded-Adds getter address adds =
      Adds-if (not_falsy_or_zero_address env address) _ _ (adds address) (adds none)

  verify_implementations-Adds :
      (config : ICommonConfiguration) (provider registry : Contract)
      → Adds mocks_weth (verify_implementations env config provider registry)
  unfolding verify_implementations
  verify_implementations-Adds config provider registry =
      search
        (
          adds_rules,
          getter_rules,
          mocks_weth-Requests,
          given_or_recorded-Adds,
          verify_contract-Adds env mocks_weth-Verifies,
          get_wrapped_native_token_address-Adds env mock-Adds,
        )
        depth 25 fits 3000

  pub verify_general-Adds :
      (pool : ConfigNames) (all : Bool) → Adds mocks_weth (verify_general env pool all)
  unfolding verify_general
  verify_general-Adds pool all =
      search
        (
          adds_rules,
          getter_rules,
          mocks_weth-Requests,
          load_pool_config-Adds env,
          given_or_recorded-Adds,
          verify_implementations-Adds,
          verify_contract-Adds env mocks_weth-Verifies,
        )
        depth 25 fits 3000

  verify_vinium_oracle-Adds :
      (config : ICommonConfiguration) (tokens aggregators : List String)
      → Adds mocks_weth (verify_vinium_oracle env config tokens aggregators)
  unfolding verify_vinium_oracle
  verify_vinium_oracle-Adds config tokens aggregators =
      Adds-if
        (not_falsy_or_zero_address env
          (get_param_per_network env config.vinium_oracle env.network_name))
        _ _
        (search (
          adds_rules,
          getter_rules,
          mocks_weth-Requests,
          get_quote_currency-Adds env mock-Adds,
          verify_contract-Adds env mocks_weth-Verifies,
        ))
        (Adds-pure tt)

  verify_rate_oracle-Adds :
      (config : ICommonConfiguration) → Adds mocks_weth (verify_rate_oracle env config)
  unfolding verify_rate_oracle
  verify_rate_oracle-Adds config =
      Adds-if
        (not_falsy_or_zero_address env
          (get_param_per_network env config.lending_rate_oracle env.network_name))
        _ _
        (search (
          adds_rules,
          getter_rules,
          mocks_weth-Requests,
          verify_contract-Adds env mocks_weth-Verifies,
        ))
        (Adds-pure tt)

  pub verify_oracles-Adds : (pool : ConfigNames) → Adds mocks_weth (verify_oracles env pool)
  unfolding verify_oracles
  verify_oracles-Adds pool =
      search
        (
          adds_rules,
          getter_rules,
          mocks_weth-Requests,
          load_pool_config-Adds env,
          get_lending_rate_oracles-Adds env,
          get_genesis_pool_admin-Adds env mocks_weth-Requests,
          pairs_or_throw-Adds,
          verify_vinium_oracle-Adds,
          verify_rate_oracle-Adds,
        )
        depth 15

  pub verify_sc-Adds :
      (address : String) (args : List Arg) → Adds mocks_weth (verify_sc env address args)
  unfolding verify_sc
  verify_sc-Adds address args = search (
    adds_rules,
    check_verification-Adds env mocks_weth-Verifies,
    verify_etherscan_contract-Adds env mocks_weth-Verifies,
  )

  pub avalanche_mainnet-Adds :
      (pool : ConfigNames) (verify : Bool) → Adds mocks_weth (avalanche_mainnet env pool verify)
  unfolding avalanche_mainnet
  avalanche_mainnet-Adds pool verify =
      Adds-bind _ _
        (Adds-when verify (check_verification env)
          (check_verification-Adds env mocks_weth-Verifies))
        λ _. Adds-when verify (verify_oracles env pool) (verify_oracles-Adds pool)

  verify_token_proxy-Adds :
      (address : String) (configurator : Contract)
      → Adds only_verifies (verify_token_proxy env address configurator)
  unfolding verify_token_proxy
  verify_token_proxy-Adds address configurator = search (
    adds_rules,
    getter_rules,
    only_verifies-Requests,
    verify_contract-Adds env only_verifies-Verifies,
  )

  verify_token-Adds :
      (id : String) (address : Option String) (getter : Option String → M Contract)
      (args : List Arg)
      → ((target : Option String) → Adds only_verifies (getter target))
      → Adds only_verifies (verify_token env id address getter args)
  unfolding verify_token
  verify_token-Adds id none getter args adds = Adds-pure tt
  verify_token-Adds id (some address) getter args adds =
      Adds-bind _ _ (adds (some address))
        λ token. verify_contract-Adds env only_verifies-Verifies _ _ _

  verify_reserve-Adds :
      (treasury : Option String) (provider pool configurator : Contract)
      (token token_address stable variable vi strategy : String) (params : IReserveParams)
      → Adds only_verifies (
          verify_reserve env treasury provider pool configurator token token_address stable variable
            vi strategy params)
  unfolding verify_reserve
  verify_reserve-Adds treasury provider pool configurator token token_address stable variable vi
        strategy params =
      search
        (
          adds_rules,
          getter_rules,
          only_verifies-Requests,
          verify_token_proxy-Adds,
          verify_token-Adds,
          verify_contract-Adds env only_verifies-Verifies,
        )
        depth 20 fits 3000

  reserve_data-Adds :
      (pool : Contract) (token field : String)
      → Adds only_verifies (reserve_data env pool token field)
  unfolding reserve_data
  reserve_data-Adds pool token field = Adds-ask env _

  verify_reserves-Adds :
      (treasury : Option String) (provider pool configurator : Contract)
      (configs : Object IReserveParams) (assets : Object String)
      → Adds only_verifies (verify_reserves env treasury provider pool configurator configs assets)
  unfolding verify_reserves
  verify_reserves-Adds treasury provider pool configurator configs [] = Adds-pure tt
  verify_reserves-Adds treasury provider pool configurator configs ((token, address) ∷ assets) =
      let reads = reserve_data-Adds pool address in
      Adds-bind _ _ (reads "stableVdTokenAddress") λ stable.
        Adds-bind _ _ (reads "variableVdTokenAddress") λ variable.
          Adds-bind _ _ (reads "viTokenAddress") λ vi.
            Adds-bind _ _ (reads "interestRateStrategyAddress") λ strategy.
              Adds-bind (or_throw (lookup token configs) (reserves_config_not_found token)) _
                (Adds-or_throw _ _)
                λ params.
                  Adds-bind _ _
                    (verify_reserve-Adds treasury provider pool configurator token address stable
                      variable vi strategy params)
                    λ _. verify_reserves-Adds treasury provider pool configurator configs assets

  pub verify_tokens-Adds : (pool : ConfigNames) → Adds only_verifies (verify_tokens env pool)
  unfolding verify_tokens
  verify_tokens-Adds pool =
      search
        (
          adds_rules,
          getter_rules,
          only_verifies-Requests,
          load_pool_config-Adds env,
          verify_reserves-Adds,
        )
        depth 15
