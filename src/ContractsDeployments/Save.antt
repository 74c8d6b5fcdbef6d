-- ===== src/ContractsDeployments/Save.antt =====
-- The shape that the deployment scripts of helpers/contracts-deployments.ts share.
use vinium_lending.Prelude.{String, Bool, List}
use vinium_lending.Effects.{Env, Arg, M, ◌>>=◌}
use vinium_lending.ContractsHelpers.{Contract, deploy, with_save_and_verify}

module _ (env : Env) where
  -- `withSaveAndVerify(await new Factory(await getFirstSigner()).deploy(...args), id, args, verify)`
  unfoldable pub deploy_and_save : (factory id : String) → List Arg → Bool → M Contract
  deploy_and_save factory id args verify = do
    instance_ ← deploy env factory args
    with_save_and_verify env instance_ id args verify
