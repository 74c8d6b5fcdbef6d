-- ===== src/Signers.antt =====
-- Who signs: helpers/defender-utils.ts, `usingTenderly` of helpers/tenderly-utils.ts,
-- `getEthersSigners` of helpers/contracts-helpers.ts and `getFirstSigner` of
-- helpers/contracts-getters.ts. A signer is its address. Where the network has no account, the
-- source fails at the first use of the undefined signer, and the model at once.
pub mod Adds
use vinium_lending.Prelude.{
  String, Bool, ◌||◌, none, some, List, [], ◌∷◌, contains_text, truthy, is_text,
}
use vinium_lending.Effects.{
  Env, M, pure, throw, type_error, defender_secrets_required, ask, when, ◌>>=◌, ◌>>◌,
}
use vinium_lending.MiscUtils.{impersonate_accounts_hardhat}

module _ (env : Env) where
  unfoldable pub using_defender : Bool
  using_defender = is_text (env.getenv "DEFENDER") "true"

  unfoldable pub using_tenderly : Bool
  using_tenderly =
      contains_text env.network_name "tenderly" || is_text (env.getenv "TENDERLY") "true"

  -- The relay's signer, once both secrets are there.
  relay_signer : String → String → M String
  unfolding impersonate_accounts_hardhat
  relay_signer key secret = do
    let address = env.relay_address key secret
    when (is_text (env.getenv "FORK") "main") (impersonate_accounts_hardhat env (address ∷ []))
    _ ← ask env (λ h. env.view_text h address "getBalance" [])
    pure address

  unfoldable pub get_defender_relay_signer : M String
  unfolding relay_signer
  get_defender_relay_signer = elim (truthy (env.getenv "DEFENDER_API_KEY")) [
    | none ↦ throw defender_secrets_required
    | some key ↦ elim (truthy (env.getenv "DEFENDER_SECRET_KEY")) [
      | none ↦ throw defender_secrets_required
      | some secret ↦ relay_signer key secret
    ]
  ]

  -- `const [, ...users] = ethersSigners`
  abbrev users_of : List String → List String
  users_of [] = []
  users_of (s ∷ users) = users

  unfoldable pub get_ethers_signers : M (List String)
  unfolding using_defender get_defender_relay_signer
  get_ethers_signers = elim using_defender [
    | Bool.true ↦ do relay ← get_defender_relay_signer; pure (relay ∷ users_of env.signers)
    | Bool.false ↦ pure env.signers
  ]

  abbrev head_or_throw : List String → M String
  head_or_throw [] = throw type_error
  head_or_throw (s ∷ _) = pure s

  unfoldable pub get_first_signer : M String
  unfolding get_ethers_signers
  get_first_signer = do head_or_throw (← get_ethers_signers)
