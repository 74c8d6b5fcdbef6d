-- ===== src/ContractsHelpers.antt =====
-- helpers/contracts-helpers.ts: the records of deployed-contracts.json, deployments, and the
-- parameters per network. Contracts are the instances of ethers: an interface, an address and the
-- signer that they are connected to (who is `deployTransaction.from` of a new one).
pub mod CallData
pub mod Linking
pub mod Params
pub mod Registry
pub mod Adds
use vinium_lending.Prelude.{
  ℕ, ◌+◌, ◌*◌, String, Bool, Option, none, some, List, [], ◌∷◌, ◌++◌, if◌then◌else◌, ◌==◌, lookup,
  truthy, Object, take, drop,
}
use vinium_lending.Effects.{
  Env, Arg, Call, DbEntry, Fixup, Artifact, deployed, deployed_code, sent, stored, M, pure, when,
  perform, ok, ◌>>=◌, ◌>>◌,
}
use vinium_lending.Types.Config.{IParamsPerNetwork}
use vinium_lending.Signers.{get_first_signer}
use vinium_lending.Verification.{verify_contract}
use vinium_lending.MiscUtils.{wait_for_tx}

pub record Contract : Type 0 where
  pub factory : String
  pub address : String
  pub signer : String

abbrev pub zero_address : String
zero_address = "0x0000000000000000000000000000000000000000"

-- `ViniumPools`
pub data ViniumPools : Type 0 where
  proto avalanche : ViniumPools

-- One round of the innermost loop of `linkBytecode`: the address, less its `0x`, at one place.
link_fixup : List ℕ → List ℕ → Fixup → List ℕ
link_fixup addr bytecode f =
    take (2 + f.start * 2) bytecode ++ (drop 2 addr ++ drop (2 + (f.start + f.bytes) * 2) bytecode)

link_fixups : List ℕ → List Fixup → List ℕ → List ℕ
link_fixups addr [] bytecode = bytecode
link_fixups addr (f ∷ fs) bytecode = link_fixups addr fs (link_fixup addr bytecode f)

-- The loop over the libraries of a file; one with no address is skipped.
link_libraries : Object (List ℕ) → Object (List Fixup) → List ℕ → List ℕ
link_libraries libraries [] bytecode = bytecode
link_libraries libraries ((lib_name, fixups) ∷ references) bytecode =
    link_libraries libraries references (elim (lookup lib_name libraries) [
      | none ↦ bytecode
      | some addr ↦ link_fixups addr fixups bytecode
    ])

-- The loop over the files.
link_files : Object (List ℕ) → Object (Object (List Fixup)) → List ℕ → List ℕ
link_files libraries [] bytecode = bytecode
link_files libraries ((_, references) ∷ files) bytecode =
    link_files libraries files (link_libraries libraries references bytecode)

unfoldable pub link_bytecode : Artifact → Object (List ℕ) → List ℕ
unfolding link_files link_libraries link_fixups link_fixup
link_bytecode artifact libraries = link_files libraries artifact.link_references artifact.bytecode

-- The `switch` of `getParamPerNetwork`: the property that it reads for a network.
unfoldable pub network_key : String → Option String
network_key network =
    if network == "coverage"
    then some "coverage"
    else if network == "buidlerevm"
    then some "buidlerevm"
    else if network == "hardhat"
    then some "buidlerevm"
    else if network == "kovan"
    then some "kovan"
    else if network == "ropsten"
    then some "ropsten"
    else if network == "main"
    then some "main"
    else if network == "tenderly"
    then some "tenderly"
    else if network == "matic"
    then some "matic"
    else if network == "mumbai"
    then some "mumbai"
    else if network == "xdai"
    then some "xdai"
    else if network == "avalanche"
    then some "avalanche"
    else if network == "fuji"
    then some "fuji"
    else if network == "goerli"
    then some "goerli"
    else none

module _ (env : Env) where
  unfoldable pub register_contract_in_json_db : String → Contract → M (Unit {0})
  register_contract_in_json_db id c =
      perform env
        (stored id env.network_name (record { address = c.address; deployer = some c.signer }))

  unfoldable pub insert_contract_address_in_db : String → String → M (Unit {0})
  insert_contract_address_in_db id address =
      perform env (stored id env.network_name (record { address = address; deployer = none }))

  unfoldable pub raw_insert_contract_address_in_db : String → String → M (Unit {0})
  raw_insert_contract_address_in_db id address =
      perform env (stored id env.network_name (record { address = address; deployer = none }))

  -- `await new Factory(libraries, await getFirstSigner()).deploy(...args)`
  unfoldable pub deploy_linked : (factory : String) → List (String × String) → List Arg → M Contract
  deploy_linked factory libraries args = do
    signer ← get_first_signer env
    perform env (deployed factory libraries args signer)
    λ h. (ok (record { factory = factory; address = env.new_address h; signer = signer }), h)

  abbrev pub deploy : (factory : String) → List Arg → M Contract
  deploy factory args = deploy_linked factory [] args

  -- `(await factory.connect(await getFirstSigner()).deploy()).deployed()` for a linked bytecode
  unfoldable pub deploy_bytecode : (factory : String) → List ℕ → M Contract
  deploy_bytecode factory bytecode = do
    signer ← get_first_signer env
    perform env (deployed_code bytecode signer)
    wait_for_tx env
    λ h. (ok (record { factory = factory; address = env.new_address h; signer = signer }), h)

  -- `await contract.method(...)`
  unfoldable pub send : Contract → Call → M (Unit {0})
  send c call = perform env (sent c.signer c.address call)

  -- `await waitForTx(await contract.method(...))`
  unfoldable pub send_and_wait : Contract → Call → M (Unit {0})
  unfolding send
  send_and_wait c call = send c call >> wait_for_tx env

  unfoldable pub with_save_and_verify : Contract → String → List Arg → Bool → M Contract
  with_save_and_verify instance_ id args verify = do
    wait_for_tx env
    register_contract_in_json_db id instance_
    when verify (verify_contract env id instance_.address args)
    pure instance_

  unfoldable pub deploy_contract : String → List Arg → M Contract
  deploy_contract name args = do
    c ← deploy name args
    wait_for_tx env
    register_contract_in_json_db name c
    pure c

  module _ {T : Type 0} where
    abbrev pub read_param : IParamsPerNetwork T → Option String → Option T
    read_param param none = none
    read_param param (some key) = lookup key param

    unfoldable pub get_param_per_network : IParamsPerNetwork T → String → Option T
    unfolding network_key
    get_param_per_network param network = elim (truthy (env.getenv "FORK")) [
      | some fork ↦ lookup fork param
      | none ↦ read_param param (network_key network)
    ]

  unfoldable pub get_optional_param_address_per_network :
      Option (IParamsPerNetwork String) → String → Option String
  get_optional_param_address_per_network none network = some zero_address
  get_optional_param_address_per_network (some param) network = get_param_per_network param network

-- `getParamPerPool` at the members of `ViniumPools`: its cases `amm` and `matic` name no member.
unfoldable pub get_param_per_pool : {T : Type 0} → T × T → ViniumPools → T
get_param_per_pool (for_proto, for_avalanche) ViniumPools.proto = for_proto
get_param_per_pool (for_proto, for_avalanche) ViniumPools.avalanche = for_avalanche
