-- ===== src/ContractsDeployments/Tokens.antt =====
-- The deposit tokens (viTokens) and the debt tokens, with their initialisation.
use vinium_lending.Prelude.{String, Bool, [], ◌∷◌}
use vinium_lending.Effects.{Env, initialize, M, pure, ◌>>=◌, ◌>>◌}
use vinium_lending.Types.ContractId.{
  id_value, delegation_aware_vi_token, mock_stable_vd_token, mock_variable_vd_token, mock_vi_token,
  stable_vd_token, variable_vd_token, vi_token,
}
use vinium_lending.ContractsDeployments.Save.{deploy_and_save}
use vinium_lending.ContractsHelpers.{Contract, send}

module _ (env : Env) where
  unfoldable pub deploy_generic_stable_vd_token : Bool → M Contract
  deploy_generic_stable_vd_token verify =
      deploy_and_save env "StableVdToken" (id_value stable_vd_token) [] verify

  unfoldable pub deploy_generic_variable_vd_token : Bool → M Contract
  deploy_generic_variable_vd_token verify =
      deploy_and_save env "VariableVdToken" (id_value variable_vd_token) [] verify

  unfoldable pub deploy_generic_vi_token_impl : Bool → M Contract
  deploy_generic_vi_token_impl verify = deploy_and_save env "ViToken" (id_value vi_token) [] verify

  unfoldable pub deploy_delegation_aware_vi_token_impl : Bool → M Contract
  deploy_delegation_aware_vi_token_impl verify =
      deploy_and_save env "DelegationAwareViToken" (id_value delegation_aware_vi_token) [] verify

  -- The debt tokens: `instance.initialize(args[0], args[1], args[2], '18', args[3], args[4], p)`.
  initialize_debt_token : Contract → (a0 a1 a2 a3 a4 p : String) → M (Unit {0})
  initialize_debt_token c a0 a1 a2 a3 a4 p =
      send env c (initialize (a0 ∷ a1 ∷ a2 ∷ "18" ∷ a3 ∷ a4 ∷ p ∷ []))

  unfoldable pub deploy_stable_vd_token : (a0 a1 a2 a3 a4 : String) → Bool → M Contract
  unfolding initialize_debt_token
  deploy_stable_vd_token a0 a1 a2 a3 a4 verify = do
    instance_ ← deploy_and_save env "StableVdToken" (id_value stable_vd_token) [] verify
    initialize_debt_token instance_ a0 a1 a2 a3 a4 "0x10"
    pure instance_

  unfoldable pub deploy_variable_vd_token : (a0 a1 a2 a3 a4 : String) → Bool → M Contract
  unfolding initialize_debt_token
  deploy_variable_vd_token a0 a1 a2 a3 a4 verify = do
    instance_ ← deploy_and_save env "VariableVdToken" (id_value variable_vd_token) [] verify
    initialize_debt_token instance_ a0 a1 a2 a3 a4 "0x10"
    pure instance_

  unfoldable pub deploy_generic_vi_token :
      (pool underlying treasury incentives_controller name symbol : String) → Bool → M Contract
  deploy_generic_vi_token pool underlying treasury incentives_controller name symbol verify = do
    instance_ ← deploy_and_save env "ViToken" (id_value vi_token) [] verify
    send env instance_ (
        initialize (
          pool ∷ treasury ∷ underlying ∷ incentives_controller ∷ "18" ∷ name ∷ symbol ∷ "0x10"
          ∷ []))
    pure instance_

  unfoldable pub deploy_delegation_aware_vi_token :
      (pool underlying treasury incentives_controller name symbol : String) → Bool → M Contract
  deploy_delegation_aware_vi_token pool underlying treasury incentives_controller name symbol
        verify =
      do
        instance_ ←
            deploy_and_save env "DelegationAwareViToken" (id_value delegation_aware_vi_token) []
              verify
        send env instance_ (
            initialize (
              pool ∷ treasury ∷ underlying ∷ incentives_controller ∷ "18" ∷ name ∷ symbol ∷ "0x10"
              ∷ []))
        pure instance_

  unfoldable pub deploy_mock_stable_vd_token : (a0 a1 a2 a3 a4 a5 : String) → Bool → M Contract
  unfolding initialize_debt_token
  deploy_mock_stable_vd_token a0 a1 a2 a3 a4 a5 verify = do
    instance_ ← deploy_and_save env "MockStableVdToken" (id_value mock_stable_vd_token) [] verify
    initialize_debt_token instance_ a0 a1 a2 a3 a4 a5
    pure instance_

  unfoldable pub deploy_mock_variable_vd_token : (a0 a1 a2 a3 a4 a5 : String) → Bool → M Contract
  unfolding initialize_debt_token
  deploy_mock_variable_vd_token a0 a1 a2 a3 a4 a5 verify = do
    instance_ ←
        deploy_and_save env "MockVariableVdToken" (id_value mock_variable_vd_token) [] verify
    initialize_debt_token instance_ a0 a1 a2 a3 a4 a5
    pure instance_

  unfoldable pub deploy_mock_vi_token : (a0 a1 a2 a3 a4 a5 a6 : String) → Bool → M Contract
  deploy_mock_vi_token a0 a1 a2 a3 a4 a5 a6 verify = do
    instance_ ← deploy_and_save env "MockViToken" (id_value mock_vi_token) [] verify
    send env instance_ (initialize (a0 ∷ a2 ∷ a1 ∷ a3 ∷ "18" ∷ a4 ∷ a5 ∷ a6 ∷ []))
    pure instance_
