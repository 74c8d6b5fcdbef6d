-- ===== src/Tests/World.antt =====
-- A world that accepts everything, and one that rejects the configuration of reserves. The database
-- is read off the history.
use vinium_lending.Prelude.{
  String, Bool, true, false, not, ◌&&◌, ◌≡◌, refl, Option, none, some, [], ◌∷◌, if◌then◌else◌, ◌==◌,
  eq_refl,
}
use vinium_lending.Effects.{
  Env, DbEntry, Action, IsLive, IsDatabase, History, deployed, deployed_code, sent, stored,
  requested, verified_tenderly, verified_etherscan, configure_reserves, is_stored,
}
use vinium_lending.ContractsHelpers.{zero_address}

abbrev pub db_find : History → String → String → Option DbEntry
db_find [] id network = none
db_find (stored i n e ∷ h) id network =
    if i == id && n == network then some e else db_find h id network
db_find (deployed _ _ _ _ ∷ h) id network = db_find h id network
db_find (deployed_code _ _ ∷ h) id network = db_find h id network
db_find (sent _ _ _ ∷ h) id network = db_find h id network
db_find (requested _ _ ∷ h) id network = db_find h id network
db_find (verified_tenderly _ _ ∷ h) id network = db_find h id network
db_find (verified_etherscan _ _ _ ∷ h) id network = db_find h id network

abbrev pub calm : Env
calm = record {
  decimals = record { ether_times = λ x. x; ray_times = λ x. x; one_usd = "1" };
  getenv = λ _. none;
  network_name = "avalanche";
  chain_id = some 43114;
  signers = "0xa1" ∷ "0xa2" ∷ [];
  relay_address = λ key secret. key;
  is_address = λ a. not (a == "");
  is_zero_address = λ a. a == zero_address;
  db_get = db_find;
  accepts = λ h a. true;
  mines = λ h. true;
  new_address = λ h. "0xc1";
  view_text = λ h target method args. some zero_address;
  view_flag = λ h target method args. some false;
  read_artifact = λ buidler id. none;
  verify_error = λ h target args related. if related then some "Fail - Unable to verify" else none;
}

abbrev refuses : Action → Bool
refuses (sent _ _ (configure_reserves _)) = true
refuses _ = false

abbrev pub strict : Env
strict = record calm { accepts = λ h a. not (refuses a) }

pub calm-IsLive : IsLive calm
calm-IsLive = record { accepted = λ h a. refl; mined = λ h. refl }

-- An action that writes no record does not change what the database holds.
unwritten :
    (a : Action) (h : History) (id network : String)
    → is_stored a ≡ false
    → db_find (a ∷ h) id network ≡ db_find h id network
unwritten (stored i n e) h id network unstored = cc
unwritten (deployed _ _ _ _) h id network unstored = refl
unwritten (deployed_code _ _) h id network unstored = refl
unwritten (sent _ _ _) h id network unstored = refl
unwritten (requested _ _) h id network unstored = refl
unwritten (verified_tenderly _ _) h id network unstored = refl
unwritten (verified_etherscan _ _ _) h id network unstored = refl

pub calm-IsDatabase : IsDatabase calm
calm-IsDatabase = record {
  get_stored = λ h id network e. rw (eq_refl id, eq_refl network) refl;
  get_other = λ h id network j n e other. rw other refl;
  get_unstored = unwritten;
}
