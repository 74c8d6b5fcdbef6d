-- ===== src/ContractsDeployments/Libraries.antt =====
-- The Solidity libraries, linked into one another, and the lending pool linked to them.
use vinium_lending.Prelude.{String, Bool, List, [], ◌∷◌, ◌==◌, codes}
use vinium_lending.Effects.{Env, Artifact, M, pure, or_throw, rejected, ◌>>=◌, ◌>>◌}
use vinium_lending.Types.ContractId.{
  id_value, generic_logic, lending_pool, lending_pool_impl, reserve_logic, validation_logic,
}
use vinium_lending.ContractsDeployments.Protocol.{deploy_reserve_logic_library}
use vinium_lending.ContractsHelpers.{
  Contract, link_bytecode, deploy_bytecode, deploy_linked, insert_contract_address_in_db,
  with_save_and_verify,
}

module _ (env : Env) where
  -- `readArtifact`
  unfoldable pub read_artifact : String → M Artifact
  read_artifact id h = or_throw (env.read_artifact (env.network_name == "buidlerevm") id) rejected h

  unfoldable pub deploy_generic_logic : Contract → Bool → M Contract
  unfolding read_artifact
  deploy_generic_logic reserve_logic_lib verify = do
    artifact ← read_artifact (id_value generic_logic)
    let code =
        link_bytecode artifact ((id_value reserve_logic, codes reserve_logic_lib.address) ∷ [])
    instance_ ← deploy_bytecode env (id_value generic_logic) code
    with_save_and_verify env instance_ (id_value generic_logic) [] verify

  unfoldable pub deploy_validation_logic :
      (reserve_logic_lib generic_logic_lib : Contract) → Bool → M Contract
  unfolding read_artifact
  deploy_validation_logic reserve_logic_lib generic_logic_lib verify = do
    artifact ← read_artifact (id_value validation_logic)
    let code = link_bytecode artifact (
        (id_value reserve_logic, codes reserve_logic_lib.address)
        ∷ (id_value generic_logic, codes generic_logic_lib.address)
        ∷ [])
    instance_ ← deploy_bytecode env (id_value validation_logic) code
    with_save_and_verify env instance_ (id_value validation_logic) [] verify

  unfoldable pub deploy_vinium_libraries : Bool → M (List (String × String))
  deploy_vinium_libraries verify = do
    reserve_lib ← deploy_reserve_logic_library env verify
    generic_lib ← deploy_generic_logic reserve_lib verify
    validation_lib ← deploy_validation_logic reserve_lib generic_lib verify
    pure (
        ("__$de8c0cf1a7d7c36c802af9a64fb9d86036$__", validation_lib.address)
        ∷ ("__$22cd43a9dda9ce44e9b92ba393b88fb9ac$__", reserve_lib.address)
        ∷ [])

  unfoldable pub deploy_lending_pool : Bool → M Contract
  deploy_lending_pool verify = do
    libraries ← deploy_vinium_libraries verify
    impl ← deploy_linked env "LendingPool" libraries []
    insert_contract_address_in_db env (id_value lending_pool_impl) impl.address
    with_save_and_verify env impl (id_value lending_pool) [] verify
