-- ===== src/InitHelpers/Configure.antt =====
-- `configureReservesByHelper`: which reserves it configures, and the transactions that it sends.
use vinium_lending.Prelude.{
  String, Bool, ◌≡◌, refl, ap, ◌∙◌, Option, none, some, List, [], ◌∷◌, map, concat, arith,
  if◌then◌else◌, ◌==◌, truthy, lookup, Object, Option-cases, Bool-cases, inl, inr,
}
use vinium_lending.Effects.{
  Env, IsLive, ConfigureReserveInput, configure_reserves, set_pool_admin, sent, History, ok, err,
  rejected, resume, for_each,
}
use vinium_lending.Effects.Laws.{log_all, for_each-log_all}
use vinium_lending.Types.Config.{IReserveParams}
use vinium_lending.MiscUtils.{chunk}
use vinium_lending.MiscUtils.Chunk.{chunk-ne-nil_of_pos}
use vinium_lending.ContractsHelpers.{Contract, send_and_wait}
use vinium_lending.ContractsHelpers.Registry.{send_and_wait_live}
use vinium_lending.ContractsGetters.{
  get_lending_pool_addresses_provider, get_vi_tokens_and_rates_helper,
}
use vinium_lending.ContractsGetters.Pairs.{entry_value-find_index}
use vinium_lending.InitHelpers.{
  configure_input, configure_step, configure_loop, configure_chunks, configure_reserves_by_helper,
  enable_chunks,
}

abbrev flag_method : String
flag_method = "getReserveConfigurationData.usageAsCollateralEnabled"

-- What a reserve contributes, given which tokens are collateral already: nothing without a token
-- address, with the loan-to-value "-1" or if it is collateral, else its parameters.
abbrev pub to_configure :
    (String → Bool) → Object String → String × IReserveParams → List ConfigureReserveInput
to_configure enabled tokens (symbol, params) = elim (truthy (lookup symbol tokens)) [
  | none ↦ []
  | some token ↦
      if params.base_ltv_as_collateral == "-1"
      then []
      else if enabled token
      then []
      else configure_input token params ∷ []
]

truthy-eq-some : (o : Option String) (s : String) → truthy o ≡ some s → o ≡ some s
truthy-eq-some none s e = cc
truthy-eq-some (some t) s e = ground arith

module _ (env : Env) (helpers : Contract) (enabled : String → Bool) (h : History)
    (views : (token : String)
      → env.view_flag h helpers.address flag_method (token ∷ []) ≡ some (enabled token)) where
  configure_step_lem :
      (tokens : Object String) (symbol : String) (params : IReserveParams)
      → configure_step env helpers tokens symbol params h
        ≡ (ok (to_configure enabled tokens (symbol, params)), h)
  unfolding configure_step
  configure_step_lem tokens symbol params = elim (Option-cases (truthy (lookup symbol tokens))) [
    | inl missing ↦ rw (missing, configure_step, to_configure)
    | inr (token, found) ↦
        rw (found, configure_step, to_configure)
          (elim (Bool-cases (params.base_ltv_as_collateral == "-1")) [
            | inl skipped ↦ rw skipped
            | inr kept ↦
                rw
                  (
                    kept,
                    entry_value-find_index symbol tokens,
                    truthy-eq-some (lookup symbol tokens) token found,
                    views token,
                  )
                  (elim (Bool-cases (enabled token)) [ inl e ↦ rw e | inr e ↦ rw e ])
          ])
  ]

  configure_loop_lem :
      (tokens : Object String) (reserves : Object IReserveParams)
      → configure_loop env helpers tokens reserves h
        ≡ (ok (concat (map (to_configure enabled tokens) reserves)), h)
  unfolding configure_loop
  configure_loop_lem tokens [] = refl
  configure_loop_lem tokens ((symbol, params) ∷ reserves) =
      ap (resume _) (configure_step_lem tokens symbol params)
      ∙ ap (resume _) (configure_loop_lem tokens reserves)

-- The history in which the deployer has just been made pool admin.
abbrev pub handed_over : Contract → Contract → History → History
handed_over provider deployer h =
    sent provider.signer provider.address (set_pool_admin deployer.address) ∷ h

-- The history of a run that configures `inputs`: nothing, or the deployer made pool admin, the
-- chunks in their order, and the admin put back.
abbrev pub configured :
    Contract → Contract → String → List ConfigureReserveInput → History → History
configured provider deployer admin [] h = h
configured provider deployer admin (input ∷ inputs) h =
    sent provider.signer provider.address (set_pool_admin admin)
    ∷ log_all (λ c. sent deployer.signer deployer.address (configure_reserves c))
        (chunk (input ∷ inputs) enable_chunks) (handed_over provider deployer h)

configure_chunks_live :
    (env : Env)
    → IsLive env
    → (provider deployer : Contract) (admin : String) (inputs : List ConfigureReserveInput)
      (h : History)
    → configure_chunks env provider deployer admin inputs h
      ≡ (ok tt, configured provider deployer admin inputs h)
unfolding configure_chunks
configure_chunks_live env live provider deployer admin [] h = refl
configure_chunks_live env live provider deployer admin (input ∷ inputs) h =
    ap (resume _) (send_and_wait_live env live provider _ h)
    ∙ (ap (resume _) (
          for_each-log_all (λ c. send_and_wait env deployer (configure_reserves c)) _
            (λ c k. send_and_wait_live env live deployer _ k) (chunk (input ∷ inputs) enable_chunks)
            _)
        ∙ send_and_wait_live env live provider _ _)

for_each_refused :
    (env : Env) (deployer : Contract) (h : History)
    → ((c : List ConfigureReserveInput)
        → send_and_wait env deployer (configure_reserves c) h ≡ (err rejected, h))
    → (input : ConfigureReserveInput) (inputs : List ConfigureReserveInput)
    → for_each
        (λ c. send_and_wait env deployer (configure_reserves c))
        (chunk (input ∷ inputs) enable_chunks)
        h
      ≡ (err rejected, h)
unfolding for_each
for_each_refused env deployer h refused input inputs =
    go (chunk (input ∷ inputs) enable_chunks) refl
  where
    go :
        (cs : List (List ConfigureReserveInput))
        → chunk (input ∷ inputs) enable_chunks ≡ cs
        → for_each (λ c. send_and_wait env deployer (configure_reserves c)) cs h ≡ (err rejected, h)
    go [] e = absurd (chunk-ne-nil_of_pos input inputs enable_chunks (omega arith) e)
    go (c ∷ cs) e = ap (resume _) (refused c)

module _ (env : Env) (reserves : Object IReserveParams) (tokens : Object String)
    (helpers provider deployer : Contract) (admin : String) (enabled : String → Bool) (h : History)
    (at_provider : get_lending_pool_addresses_provider env none h ≡ (ok provider, h))
    (at_deployer : get_vi_tokens_and_rates_helper env none h ≡ (ok deployer, h))
    (views : (token : String)
      → env.view_flag h helpers.address flag_method (token ∷ []) ≡ some (enabled token)) where
  -- The run up to the end of its loop.
  configure_reserves_by_helper_loop :
      configure_reserves_by_helper env reserves tokens helpers admin h
      ≡ configure_chunks env provider deployer admin
          (concat (map (to_configure enabled tokens) reserves))
          h
  unfolding configure_reserves_by_helper
  configure_reserves_by_helper_loop =
      ap (resume _) at_provider
      ∙ (ap (resume _) at_deployer
          ∙ ap (resume _) (configure_loop_lem env helpers enabled h views tokens reserves))

  -- If the provider, the deployer and the collateral flag of each token are found and every
  -- transaction goes through, the helper succeeds. With no reserve to configure it sends
  -- nothing; else it makes the deployer pool admin, sends the inputs of exactly the reserves that
  -- `to_configure` names in chunks of 20, and puts the admin back as the last transaction.
  pub configure_reserves_by_helper_live :
      IsLive env
      → configure_reserves_by_helper env reserves tokens helpers admin h ≡ (
        ok tt,
        configured provider deployer admin (concat (map (to_configure enabled tokens) reserves)) h,
      )
  configure_reserves_by_helper_live live =
      configure_reserves_by_helper_loop ∙ configure_chunks_live env live provider deployer admin _ h

  -- If the provider, the deployer and the collateral flag of each token are found, there is a reserve
  -- to configure, the deployer is made pool admin, and after that every call of
  -- `configureReserves` is rejected, the helper throws and leaves the deployer as pool admin.
  pub configure_reserves_by_helper_rejected :
      (input : ConfigureReserveInput) (inputs : List ConfigureReserveInput)
      → concat (map (to_configure enabled tokens) reserves) ≡ input ∷ inputs
      → send_and_wait env provider (set_pool_admin deployer.address) h
        ≡ (ok tt, handed_over provider deployer h)
      → ((c : List ConfigureReserveInput)
          → send_and_wait env deployer (configure_reserves c) (handed_over provider deployer h)
            ≡ (err rejected, handed_over provider deployer h))
      → configure_reserves_by_helper env reserves tokens helpers admin h
        ≡ (err rejected, handed_over provider deployer h)
  unfolding configure_chunks
  configure_reserves_by_helper_rejected input inputs some_input accepted refused =
      configure_reserves_by_helper_loop
      ∙ (ap (λ (i : List ConfigureReserveInput). configure_chunks env provider deployer admin i h)
            some_input
          ∙ (ap (resume _) accepted
              ∙ ap (resume _) (for_each_refused env deployer _ refused input inputs)))
