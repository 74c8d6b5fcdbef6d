-- ===== src/Effects/World.antt =====
-- The world outside, as its answers after a history, with the laws that proofs assume of it.
use vinium_lending.Prelude.{ℕ, String, ◌≡◌, Bool, true, false, Option, some, List, ◌∷◌, ◌&&◌, ◌==◌}
use vinium_lending.Effects.Actions.{Arg, Artifact, DbEntry, Action, stored, History}

-- What the configuration takes of bignumber.js: `oneEther.multipliedBy(x).toFixed()` and
-- `oneRay.multipliedBy(x).toFixed()` for a decimal text x, and `oneUsd.toString()`.
pub record Decimals : Type 0 where
  pub ether_times : String → String
  pub ray_times : String → String
  pub one_usd : String

pub record Env : Type 0 where
  pub decimals : Decimals
  -- `process.env.X`; `none` if it is not set
  pub getenv : String → Option String
  -- `DRE.network.name` and `DRE.network.config.chainId`
  pub network_name : String
  pub chain_id : Option ℕ
  -- the addresses of `DRE.ethers.getSigners()`, and of a Defender relay by its key and secret
  pub signers : List String
  pub relay_address : String → String → String
  -- `isAddress` of ethers, `isZeroAddress` of ethereumjs-util
  pub is_address : String → Bool
  pub is_zero_address : String → Bool
  -- the record `${id}.${network}` of lowdb
  pub db_get : History → String → String → Option DbEntry
  -- whether an action goes through, else its promise rejects
  pub accepts : History → Action → Bool
  -- whether `tx.wait(1)` resolves for the newest transaction
  pub mines : History → Bool
  -- the address of the newest contract
  pub new_address : History → String
  -- view calls of a contract (address, method, arguments), and `getBalance` of an account;
  -- `none` rejects
  pub view_text : History → String → String → List String → Option String
  pub view_flag : History → String → String → List String → Option Bool
  -- the compiled contract that buidler (true) or hardhat (false) reads for an id
  pub read_artifact : Bool → String → Option Artifact
  -- the outcome of a hardhat verification task: `none` is success, else the error's message
  pub verify_error : History → String → List Arg → Bool → Option String

-- Only writes change deployed-contracts.json.
abbrev pub is_stored : Action → Bool
is_stored (stored _ _ _) = true
is_stored _ = false

-- lowdb keeps what was written, and nothing else changes the file.
pub record IsDatabase (env : Env) : Type 0 where
  pub get_stored :
      (h : History) (id network : String) (e : DbEntry)
      → env.db_get (stored id network e ∷ h) id network ≡ some e
  pub get_other :
      (h : History) (id network j n : String) (e : DbEntry)
      → (j == id && n == network) ≡ false
      → env.db_get (stored j n e ∷ h) id network ≡ env.db_get h id network
  pub get_unstored :
      (a : Action) (h : History) (id network : String)
      → is_stored a ≡ false
      → env.db_get (a ∷ h) id network ≡ env.db_get h id network

-- Everything that is asked of the world succeeds.
pub record IsLive (env : Env) : Type 0 where
  pub accepted : (h : History) (a : Action) → env.accepts h a ≡ true
  pub mined : (h : History) → env.mines h ≡ true
