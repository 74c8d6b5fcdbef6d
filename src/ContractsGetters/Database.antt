-- ===== src/ContractsGetters/Database.antt =====
-- deployed-contracts.json as a map from ids to records: the registry of a network is the object that
-- replays the writes of a history.
use vinium_lending.Prelude.{
  String, Bool, true, false, ◌&&◌, ◌==◌, ◌≡◌, refl, ap, ◌∙◌, Option, none, some, [], ◌∷◌,
  if◌then◌else◌, Bool-cases, inl, inr, truthy, lookup, insert, lookup-insert, Object, eq_iff,
  eq_refl,
}
use vinium_lending.Effects.{
  Env, IsLive, IsDatabase, DbEntry, deployed, deployed_code, sent, stored, requested,
  verified_tenderly, verified_etherscan, History, ok,
}
use vinium_lending.Effects.Laws.{perform_live}
use vinium_lending.ContractsHelpers.{
  Contract, insert_contract_address_in_db, register_contract_in_json_db,
}
use vinium_lending.ContractsGetters.{get_address_by_id}

-- The registry of a network after a history, from the one that it started with.
abbrev pub replay : String → Object DbEntry → History → Object DbEntry
replay network registry [] = registry
replay network registry (stored id n e ∷ h) =
    let rest = replay network registry h in if n == network then insert id e rest else rest
replay network registry (deployed _ _ _ _ ∷ h) = replay network registry h
replay network registry (deployed_code _ _ ∷ h) = replay network registry h
replay network registry (sent _ _ _ ∷ h) = replay network registry h
replay network registry (requested _ _ ∷ h) = replay network registry h
replay network registry (verified_tenderly _ _ ∷ h) = replay network registry h
replay network registry (verified_etherscan _ _ _ ∷ h) = replay network registry h

-- The address of a record, if there is one that is not empty.
abbrev pub recorded_address : Option DbEntry → Option String
recorded_address none = none
recorded_address (some entry) = truthy (some entry.address)

both-false : (a : Bool) {b : Bool} → b ≡ false → (a && b) ≡ false
both-false true e = e
both-false false e = refl

module _ (env : Env) (database : IsDatabase env) (registry : Object DbEntry)
    (initially : (id : String) → env.db_get [] id env.network_name ≡ lookup id registry) where
  abbrev pub registry_after : History → Object DbEntry
  registry_after h = replay env.network_name registry h

  -- A record of the file is what the registry has.
  get-replay :
      (h : History) (id : String) → env.db_get h id env.network_name ≡ lookup id (registry_after h)
  get-replay [] id = initially id
  get-replay (stored j n e ∷ h) id = elim (Bool-cases (n == env.network_name)) [
    | inr away ↦ rw away (
        database.get_other h id env.network_name j n e (both-false (j == id) away)
        ∙ get-replay h id)
    | inl here ↦
        rw (here, lookup-insert j id e (registry_after h))
          (elim (Bool-cases (j == id)) [
            | inl hit ↦ rw hit (
                (λ i.
                  env.db_get
                    (stored ((eq_iff j id).0 hit i) ((eq_iff n env.network_name).0 here i) e ∷ h) id
                    env.network_name)
                ∙ database.get_stored h id env.network_name e)
            | inr miss ↦
                rw miss
                  (database.get_other h id env.network_name j n e (rw miss refl) ∙ get-replay h id)
          ])
  ]
  get-replay (deployed f l a s ∷ h) id =
      database.get_unstored _ h id env.network_name refl ∙ get-replay h id
  get-replay (deployed_code b s ∷ h) id =
      database.get_unstored _ h id env.network_name refl ∙ get-replay h id
  get-replay (sent s t c ∷ h) id =
      database.get_unstored _ h id env.network_name refl ∙ get-replay h id
  get-replay (requested m a ∷ h) id =
      database.get_unstored _ h id env.network_name refl ∙ get-replay h id
  get-replay (verified_tenderly i a ∷ h) id =
      database.get_unstored _ h id env.network_name refl ∙ get-replay h id
  get-replay (verified_etherscan a l r ∷ h) id =
      database.get_unstored _ h id env.network_name refl ∙ get-replay h id

  -- If the file keeps what is written and starts as a registry, then after every history that goes
  -- through, reading an address is a lookup in the registry, and each of the two writes inserts its
  -- record in it.
  pub registry_refinement :
      IsLive env
      → (h : History) (id address : String) (c : Contract)
      → (get_address_by_id env id h ≡ (ok (recorded_address (lookup id (registry_after h))), h))
        × ((k : History) × (insert_contract_address_in_db env id address h ≡ (ok tt, k))
            × (registry_after k
                ≡ insert id (record { address = address; deployer = none }) (registry_after h)))
        × ((k : History) × (register_contract_in_json_db env id c h ≡ (ok tt, k))
            × (registry_after k
                ≡ insert id
                    (record { address = c.address; deployer = some c.signer })
                    (registry_after h)))
  unfolding get_address_by_id insert_contract_address_in_db register_contract_in_json_db
  registry_refinement live h id address c = (
    ap (λ o. (ok (recorded_address o), h)) (get-replay h id),
    (_, perform_live env live _ h, rw (eq_refl env.network_name) refl),
    (_, perform_live env live _ h, rw (eq_refl env.network_name) refl),
  )
