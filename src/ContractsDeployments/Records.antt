-- ===== src/ContractsDeployments/Records.antt =====
-- What the deployments record, and what the getters then find.
use vinium_lending.Prelude.{String, ◌≡◌, refl, ap, ◌∙◌, false, none, some, List, [], ◌∷◌}
use vinium_lending.Effects.{
  Env, IsLive, IsDatabase, Arg, one, deployed, History, ok, resume, ◌>>◌, db_value,
}
use vinium_lending.Effects.Laws.{perform_live}
use vinium_lending.Types.ContractId.{id_value, ui_pool_data_provider}
use vinium_lending.Signers.{get_first_signer}
use vinium_lending.ContractsHelpers.{Contract, deploy_linked}
use vinium_lending.ContractsHelpers.Registry.{record_of, with_save_and_verify_live}
use vinium_lending.ContractsGetters.{connect_or_db, db_address, connect}
use vinium_lending.ContractsDeployments.Save.{deploy_and_save}
use vinium_lending.ContractsDeployments.Periphery.{
  deploy_ui_pool_data_provider_v2, deploy_ui_pool_data_provider_v2_v3,
}

module _ (env : Env) (live : IsLive env) (signer : String)
    (first : (h : History) → get_first_signer env h ≡ (ok signer, h)) where
  -- The instance that a deployment makes, and the history that it leaves.
  abbrev pub instance_of : String → List Arg → History → Contract
  instance_of factory args h = record {
    factory = factory;
    address = env.new_address (deployed factory [] args signer ∷ h);
    signer = signer;
  }

  abbrev pub saved : (factory id : String) → List Arg → History → History
  saved factory id args h =
      record_of env live id (instance_of factory args h) ∷ deployed factory [] args signer ∷ h

  deploy_linked_live :
      (factory : String) (args : List Arg) (h : History)
      → deploy_linked env factory [] args h
        ≡ (ok (instance_of factory args h), deployed factory [] args signer ∷ h)
  unfolding deploy_linked
  deploy_linked_live factory args h =
      ap (resume _) (first h)
      ∙ ap (resume _) (perform_live env live (deployed factory [] args signer) h)

  pub deploy_and_save_live :
      (factory id : String) (args : List Arg) (h : History)
      → deploy_and_save env factory id args false h
        ≡ (ok (instance_of factory args h), saved factory id args h)
  unfolding deploy_and_save
  deploy_and_save_live factory id args h =
      ap (resume _) (deploy_linked_live factory args h)
      ∙ with_save_and_verify_live env live (instance_of factory args h) id args _

  -- If the network has a first signer, every transaction goes through and the database keeps what
  -- it is given, the getter of an id returns the very instance that was deployed under the id last.
  pub connect_or_db-deploy_and_save :
      IsDatabase env
      → (factory id : String) (args : List Arg) (h : History)
      → (deploy_and_save env factory id args false >> connect_or_db env factory id none) h
        ≡ (ok (instance_of factory args h), saved factory id args h)
  unfolding connect_or_db db_address connect
  connect_or_db-deploy_and_save database factory id args h =
      ap (resume _) (deploy_and_save_live factory id args h)
      ∙ rw (database.get_stored _ id env.network_name _) (ap (resume _) (first _))

  -- On the same terms, a deployment of the V2V3 data provider overwrites the record of the V2 one:
  -- both are kept under the id UiPoolDataProvider, which then has the address of the second.
  pub ui_pool_data_provider_overwritten :
      IsDatabase env
      → (aggregator usd_aggregator : String) (h : History)
      → let args = one aggregator ∷ one usd_aggregator ∷ [] in
        let h2 = saved "UiPoolDataProviderV2" (id_value ui_pool_data_provider) args h in
        let c = instance_of "UiPoolDataProviderV2V3" args h2 in
        (deploy_ui_pool_data_provider_v2 env aggregator usd_aggregator false
            >> (deploy_ui_pool_data_provider_v2_v3 env aggregator usd_aggregator false
                >> db_value env (id_value ui_pool_data_provider)))
          h
        ≡ (
          ok (some (record { address = c.address; deployer = some signer })),
          saved "UiPoolDataProviderV2V3" (id_value ui_pool_data_provider) args h2,
        )
  unfolding deploy_ui_pool_data_provider_v2 deploy_ui_pool_data_provider_v2_v3
  ui_pool_data_provider_overwritten database aggregator usd_aggregator h =
      ap (resume _) (deploy_and_save_live _ _ _ h)
      ∙ (ap (resume _) (deploy_and_save_live _ _ _ _)
          ∙ rw (database.get_stored _ _ env.network_name _) refl)
