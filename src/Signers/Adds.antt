-- ===== src/Signers/Adds.antt =====
-- What the choice of a signer adds to the history.
use vinium_lending.Prelude.{String, Bool, true, ◌≡◌, List, truthy}
use vinium_lending.Effects.{Env, Action, requested}
use vinium_lending.Effects.Adds.{
  Adds, adds_rules, Adds-bind, Adds-elim_bool, Adds-elim_option, Adds-elim_list, Adds-pure,
  Adds-throw,
}
use vinium_lending.MiscUtils.{impersonate_accounts_hardhat}
use vinium_lending.Signers.{
  using_defender, relay_signer, get_defender_relay_signer, get_ethers_signers, get_first_signer,
}

-- The test lets requests through.
pub record Requests (p : Action → Bool) : Type 0 where
  pub request : (method : String) (args : List String) → p (requested method args) ≡ true

module _ (env : Env) {p : Action → Bool} (requests : Requests p) where
  impersonate_accounts_hardhat-Adds :
      (accounts : List String) → Adds p (impersonate_accounts_hardhat env accounts)
  unfolding impersonate_accounts_hardhat
  impersonate_accounts_hardhat-Adds accounts = search (adds_rules, requests.request)

  relay_signer-Adds : (key secret : String) → Adds p (relay_signer env key secret)
  unfolding relay_signer
  relay_signer-Adds key secret = search (adds_rules, impersonate_accounts_hardhat-Adds)

  get_defender_relay_signer-Adds : Adds p (get_defender_relay_signer env)
  unfolding get_defender_relay_signer
  get_defender_relay_signer-Adds =
      Adds-elim_option (truthy (env.getenv "DEFENDER_API_KEY")) _ _ (Adds-throw _) λ key.
        Adds-elim_option (truthy (env.getenv "DEFENDER_SECRET_KEY")) _ _ (Adds-throw _)
          λ secret. relay_signer-Adds key secret

  pub get_ethers_signers-Adds : Adds p (get_ethers_signers env)
  unfolding get_ethers_signers
  get_ethers_signers-Adds =
      Adds-elim_bool (using_defender env) _ _ (search (adds_rules, get_defender_relay_signer-Adds))
        (Adds-pure _)

  pub get_first_signer-Adds : Adds p (get_first_signer env)
  unfolding get_first_signer
  get_first_signer-Adds =
      Adds-bind _ _ get_ethers_signers-Adds
        λ accounts. Adds-elim_list accounts _ _ (Adds-throw _) λ signer others. Adds-pure _
