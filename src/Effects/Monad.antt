-- ===== src/Effects/Monad.antt =====
-- A script: it reads and extends the history, and returns or throws. What was done before a throw
-- stays done.
use vinium_lending.Prelude.{
  ℕ, String, Bool, true, false, Option, none, some, List, [], ◌∷◌, if◌then◌else◌,
}
use vinium_lending.Effects.Actions.{DbEntry, Action, History}
use vinium_lending.Effects.World.{Env}

-- What a script throws.
pub data Error : Type 0 where
  -- a property or a destructuring of `undefined`
  type_error : Error
  -- a promise of the world outside that rejects
  rejected : Error
  -- the scripts' own errors
  unsupported_config : Error
  weth_not_set : Error
  quote_not_set : Error
  missing_contract_address : String → Error
  missing_deployment_script : String → Error
  defender_secrets_required : Error
  missing_etherscan_key : Error
  network_not_supported : String → Error
  invalid_chain_id : Error
  registry_owner_missing : Error
  reserve_assets_undefined : Error
  reserves_config_not_found : (token : String) → Error
  wrong_reserve_asset_setup : (symbol network : String) → Error
  missing_path : Error
  -- `process.exit(code)`
  exited : ℕ → Error

pub data Result (A : Type 0) : Type 0 where
  ok : A → Result A
  err : Error → Result A

abbrev pub M : Type 0 → Type 0
M A = History → Result A × History

module _ {A : Type 0} where
  abbrev pub pure : A → M A
  pure a h = (ok a, h)

  abbrev pub throw : Error → M A
  throw e h = (err e, h)

  -- The value of an optional that must be there.
  abbrev pub or_throw : Option A → Error → M A
  or_throw none e = throw e
  or_throw (some a) _ = pure a

-- What follows a part: its continuation, or nothing after a throw.
abbrev pub resume : {A B : Type 0} → (A → M B) → Result A × History → Result B × History
resume f (ok a, h) = f a h
resume f (err e, h) = (err e, h)

infixl 5 ◌>>=◌ ◌>>◌
abbrev pub ◌>>=◌ : {A B : Type 0} → M A → (A → M B) → M B
◌>>=◌ m f h = resume f (m h)

abbrev pub ◌>>◌ : {A B : Type 0} → M A → M B → M B
m >> k = m >>= λ _. k

-- `if (b) { … }`
abbrev pub when : Bool → M (Unit {0}) → M (Unit {0})
when true m = m
when false m = pure tt

-- A loop over a list whose body awaits.
unfoldable pub for_each : {A : Type 0} → (A → M (Unit {0})) → List A → M (Unit {0})
for_each f [] = pure tt
for_each f (x ∷ xs) = f x >> for_each f xs

-- A loop that collects what its body returns.
unfoldable pub for_collect : {A B : Type 0} → (A → M B) → List A → M (List B)
for_collect f [] = pure []
for_collect f (x ∷ xs) = do y ← f x; ys ← for_collect f xs; pure (y ∷ ys)

module _ (env : Env) where
  -- An action that goes through is in the history.
  unfoldable pub perform : Action → M (Unit {0})
  perform a h = if env.accepts h a then (ok tt, a ∷ h) else (err rejected, h)

  -- A promise of the world that only reads.
  abbrev pub ask : {A : Type 0} → (History → Option A) → M A
  ask f h = or_throw (f h) rejected h

  -- `getDb().get(`${id}.${DRE.network.name}`).value()`
  abbrev pub db_value : String → M (Option DbEntry)
  db_value id h = (ok (env.db_get h id env.network_name), h)
