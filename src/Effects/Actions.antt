-- ===== src/Effects/Actions.antt =====
-- The actions that leave a trace outside: deployments, transactions, database writes, requests and
-- verifications. Numbers of the contracts are decimal texts, as in the configuration files.
use vinium_lending.Prelude.{ℕ, String, Bool, Option, List, Object}

-- An argument of a constructor, `string | string[]`, or the value of a setting that is missing.
pub data Arg : Type 0 where
  one : String → Arg
  many : List String → Arg
  undefined : Arg

-- An entry of `initInputParams` (helpers/init-helpers.ts).
pub record InitReserveInput : Type 0 where
  pub vi_token_impl : String
  pub stable_vd_token_impl : String
  pub variable_vd_token_impl : String
  pub underlying_asset_decimals : String
  pub interest_rate_strategy_address : String
  pub underlying_asset : String
  pub treasury : String
  pub incentives_controller : String
  pub underlying_asset_name : String
  pub vi_token_name : String
  pub vi_token_symbol : String
  pub variable_vd_token_name : String
  pub variable_vd_token_symbol : String
  pub stable_vd_token_name : String
  pub stable_vd_token_symbol : String
  pub params : String

-- An entry of `inputParams` (helpers/init-helpers.ts).
pub record ConfigureReserveInput : Type 0 where
  pub asset : String
  pub base_ltv : String
  pub liquidation_threshold : String
  pub liquidation_bonus : String
  pub reserve_factor : String
  pub stable_borrowing_enabled : Bool
  pub borrowing_enabled : Bool

-- The transactions that the scripts send, by the method of the contract.
pub data Call : Type 0 where
  initialize : List String → Call
  set_pool_admin set_emergency_admin set_lending_pool_impl : String → Call
  set_lending_pool_configurator_impl set_lending_pool_collateral_manager : String → Call
  set_price_oracle set_lending_rate_oracle : String → Call
  set_address : (id address : String) → Call
  set_pool_pause : Bool → Call
  batch_init_reserve : List InitReserveInput → Call
  configure_reserves : List ConfigureReserveInput → Call
  transfer_ownership : String → Call
  set_oracle_borrow_rates : (assets rates : List String) → (oracle : String) → Call
  set_oracle_ownership : (oracle admin : String) → Call
  set_asset_price : (asset price : String) → Call
  set_eth_usd_price : (price : String) → Call
  set_asset_sources : (assets sources : List String) → Call
  authorize_lending_pool : String → Call
  register_addresses_provider : (provider : String) → (id : ℕ) → Call
  transfer_value : (ether : String) → Call

-- A record of deployed-contracts.json; `insertContractAddressInDb` writes no deployer.
pub record DbEntry : Type 0 where
  pub address : String
  pub deployer : Option String

-- A compiled contract as hardhat reads it: its bytecode as the character codes of a hexadecimal
-- text, and where each library's address is to be put in.
pub record Fixup : Type 0 where
  pub start : ℕ
  pub bytes : ℕ

pub record Artifact : Type 0 where
  pub bytecode : List ℕ
  pub link_references : Object (Object (List Fixup))

pub data Action : Type 0 where
  -- a contract creation: factory, linked libraries, constructor arguments, signer
  deployed : (factory : String) → List (String × String) → List Arg → (signer : String) → Action
  -- a contract creation from bytecode
  deployed_code : (bytecode : List ℕ) → (signer : String) → Action
  -- a transaction: signer, address of the contract, method with its arguments
  sent : (signer target : String) → Call → Action
  -- a write of the record `${id}.${network}`
  stored : (id network : String) → DbEntry → Action
  -- a request: a JSON-RPC method of the provider, or an address that is posted to
  requested : (method : String) → List String → Action
  -- a verification at Tenderly, or at Etherscan by a hardhat task
  verified_tenderly : (id address : String) → Action
  verified_etherscan : (address : String) → List Arg → (related_sources : Bool) → Action

-- The actions taken so far, the newest at the head.
abbrev pub History : Type 0
History = List Action
