-- ===== src/InitHelpers/Init.antt =====
-- `initReservesByHelper`: what it sends, and from which reserves.
use vinium_lending.Prelude.{
  String, ◌≡◌, refl, ap, ◌∙◌, none, some, List, [], ◌∷◌, map, ◌==◌, eq_iff, truthy, lookup, Object,
  Option-cases, Bool-cases, inl, inr, All, All-append,
}
use mathlib.Core.List.{Memᴰ}
use vinium_lending.Effects.{
  Env, IsLive, InitReserveInput, batch_init_reserve, sent, History, Action, ok, resume, Result,
  for_each,
}
use vinium_lending.Effects.Ensures.{
  Ensures, Ensures-ok, returned, Ensures-resume, Ensures-any, ask-Ensures, Ensures-self,
}
use vinium_lending.Effects.Laws.{log_all, for_each-log_all}
use vinium_lending.Types.Config.{IReserveParams}
use vinium_lending.MiscUtils.{chunk}
use vinium_lending.MiscUtils.Chunk.{chunk_by_one}
use vinium_lending.ContractsHelpers.{Contract, zero_address, send_and_wait}
use vinium_lending.ContractsHelpers.Registry.{send_and_wait_live}
use vinium_lending.ContractsGetters.{
  get_lending_pool, get_lending_pool_addresses_provider, get_lending_pool_configurator_proxy,
}
use vinium_lending.InitHelpers.{
  InitSettings, InitState, init_input, init_reserve, init_step, init_loop, no_reserves, init_chunks,
  init_reserves_by_helper, strategy_address,
}
use vinium_lending.Types.ContractId.{id_value, stable_vd_token, variable_vd_token}
use vinium_lending.ContractAddress.{get_contract_address_with_json_fallback}

-- A pool that the provider named had no viToken for the token.
pub record IsFresh (env : Env) (provider : Contract) (token : String) : Type 0 where
  pub asked_at : History
  pub pool : String
  pub of_provider : env.view_text asked_at provider.address "getLendingPool" [] ≡ some pool
  pub connected_at : History
  pub connected : Contract
  pub read_at : History
  pub at_pool : get_lending_pool env (some pool) connected_at ≡ (ok connected, read_at)
  pub not_initialised :
      env.view_text read_at connected.address "getReserveData.viTokenAddress" (token ∷ [])
      ≡ some zero_address

-- An input is made of a reserve of the market that is not initialised, under its own symbol and with
-- its token's address.
pub record IsFrom (env : Env) (provider : Contract) (s : InitSettings) (tokens : Object String)
    (reserves : Object IReserveParams) (input : InitReserveInput) : Type 0 where
  pub symbol : String
  pub params : IReserveParams
  pub listed : Memᴰ (symbol, params) reserves
  pub token : String
  pub strategy : String
  pub vi : String
  pub stable : String
  pub variable : String
  pub has_token : truthy (lookup symbol tokens) ≡ some token
  pub fresh : IsFresh env provider token
  pub same : input ≡ init_input s symbol token params strategy vi stable variable

module _ (env : Env) (s : InitSettings) (provider : Contract) (tokens : Object String) where
  -- Every input is made of one of the reserves.
  abbrev AreFrom : Object IReserveParams → InitState → History → Type 0
  AreFrom all st h = All (IsFrom env provider s tokens all) st.init_input_params

  init_reserve-AreFrom :
      (all : Object IReserveParams) (symbol token : String) (params : IReserveParams)
      (st : InitState) (h : History)
      → Memᴰ (symbol, params) all
      → truthy (lookup symbol tokens) ≡ some token
      → IsFresh env provider token
      → AreFrom all st h
      → Ensures (AreFrom all) (init_reserve env s provider symbol token params st h)
  unfolding init_reserve
  init_reserve-AreFrom all symbol token params st h listed found fresh before =
      Ensures-any _ (strategy_address env provider s.verify params.strategy st.strategy_addresses h)
        λ strategy k1.
          Ensures-any _
            (get_contract_address_with_json_fallback env params.vi_token_impl s.pool_name k1)
            λ vi k2.
              Ensures-any _
                (get_contract_address_with_json_fallback env (id_value stable_vd_token) s.pool_name
                  k2)
                λ stable k3.
                  Ensures-any _
                    (get_contract_address_with_json_fallback env (id_value variable_vd_token)
                      s.pool_name k3)
                    λ variable k4. returned (
                      All-append (IsFrom env provider s tokens all) st.init_input_params
                        (init_input s symbol token params strategy.0 vi stable variable ∷ []) before
                        (
                          record {
                            symbol = symbol;
                            params = params;
                            listed = listed;
                            token = token;
                            strategy = strategy.0;
                            vi = vi;
                            stable = stable;
                            variable = variable;
                            has_token = found;
                            fresh = fresh;
                            same = refl;
                          },
                          tt,
                        ))

  init_step-AreFrom :
      (all : Object IReserveParams) (symbol : String) (params : IReserveParams) (st : InitState)
      (h : History)
      → Memᴰ (symbol, params) all
      → AreFrom all st h
      → Ensures (AreFrom all) (init_step env s provider tokens symbol params st h)
  unfolding init_step
  init_step-AreFrom all symbol params st h listed before =
      elim (Option-cases (truthy (lookup symbol tokens))) [
        | inl missing ↦ rw (missing, init_step) (returned before)
        | inr (token, found) ↦
            rw (found, init_step)
              (Ensures-resume _
                (ask-Ensures env (λ h. env.view_text h provider.address "getLendingPool" []) h)
                λ pool_address k1 of_provider.
                  Ensures-resume _ (Ensures-self (get_lending_pool env (some pool_address) k1))
                    λ pool k2 at_pool.
                      Ensures-resume _
                        (ask-Ensures env
                          (λ h.
                            env.view_text h pool.address "getReserveData.viTokenAddress"
                              (token ∷ []))
                          k2)
                        λ vi_token_address k3 read.
                          elim (Bool-cases (vi_token_address == zero_address)) [
                            | inl zero ↦ rw zero (
                                init_reserve-AreFrom all symbol token params st k3 listed found
                                  (record {
                                    asked_at = h;
                                    connected_at = k1;
                                    pool = pool_address;
                                    of_provider = of_provider;
                                    read_at = k2;
                                    connected = pool;
                                    at_pool = at_pool;
                                    not_initialised =
                                        read
                                        ∙ ap some ((eq_iff vi_token_address zero_address).0 zero);
                                  })
                                  before)
                            | inr initialised ↦ rw initialised (returned before)
                          ])
      ]

  init_loop-AreFrom :
      (all reserves : Object IReserveParams) (st : InitState) (h : History)
      → ((e : String × IReserveParams) → Memᴰ e reserves → Memᴰ e all)
      → AreFrom all st h
      → Ensures (AreFrom all) (init_loop env s provider tokens reserves st h)
  unfolding init_loop
  init_loop-AreFrom all [] st h sub before = returned before
  init_loop-AreFrom all ((symbol, params) ∷ reserves) st h sub before =
      Ensures-resume _
        (init_step-AreFrom all symbol params st h (sub (symbol, params) (Memᴰ.head refl)) before)
        λ st' k after. init_loop-AreFrom all reserves st' k (λ e m. sub e (Memᴰ.tail m)) after

module _ (env : Env) (s : InitSettings) (reserves : Object IReserveParams) (tokens : Object String)
    (provider configurator : Contract) (st : InitState) (h k : History)
    (at_provider : get_lending_pool_addresses_provider env none h ≡ (ok provider, h))
    (at_loop : init_loop env s provider tokens reserves no_reserves h ≡ (ok st, k))
    (at_configurator : get_lending_pool_configurator_proxy env none k ≡ (ok configurator, k)) where
  init_reserves_by_helper_loop :
      init_reserves_by_helper env s reserves tokens h
      ≡ for_each
          (λ inputs. send_and_wait env configurator (batch_init_reserve inputs))
          (chunk st.init_input_params init_chunks)
          k
  unfolding init_reserves_by_helper
  init_reserves_by_helper_loop =
      ap (resume _) at_provider ∙ (ap (resume _) at_loop ∙ ap (resume _) at_configurator)

  abbrev log_to :
      (List InitReserveInput → Action) → List (List InitReserveInput) → Result (Unit {0}) × History
  log_to act cs = (ok tt, log_all act cs k)

  -- If the provider and the configurator are found, the loop returns and every transaction goes through, the helper succeeds: it initialises
  -- each collected input in a transaction of its own, in their order, and each input is made of a
  -- reserve of the market, under that reserve's symbol and with the address of its token;
  -- for this token a pool that the provider named reported no viToken.
  pub init_reserves_by_helper_live :
      IsLive env
      → (init_reserves_by_helper env s reserves tokens h ≡ (
        ok tt,
        log_all
            (λ inputs. sent configurator.signer configurator.address (batch_init_reserve inputs))
            (map (λ i. i ∷ []) st.init_input_params)
            k,
      ))
        × All (IsFrom env provider s tokens reserves) st.init_input_params
  init_reserves_by_helper_live live = (
    init_reserves_by_helper_loop
        ∙ (for_each-log_all (λ inputs. send_and_wait env configurator (batch_init_reserve inputs)) _
              (λ inputs k'. send_and_wait_live env live configurator _ k')
              (chunk st.init_input_params init_chunks) k
            ∙ ap
                (log_to (λ inputs.
                  sent configurator.signer configurator.address (batch_init_reserve inputs)))
                (chunk_by_one st.init_input_params)),
    Ensures-ok st k
        (init_loop-AreFrom env s provider tokens reserves reserves no_reserves h (λ e m. m) tt)
        at_loop,
  )
