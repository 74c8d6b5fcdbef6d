-- ===== src/ContractsHelpers/Registry.antt =====
-- What `withSaveAndVerify` and the transactions leave behind.
use vinium_lending.Prelude.{String, ◌≡◌, ap, ◌∙◌, false, some, List, ◌∷◌}
use vinium_lending.Effects.{Env, IsLive, Arg, Call, Action, sent, stored, History, ok, resume}
use vinium_lending.Effects.Laws.{>>=-ok, perform_live}
use vinium_lending.MiscUtils.{wait_for_tx}
use vinium_lending.ContractsHelpers.{
  Contract, register_contract_in_json_db, send, send_and_wait, with_save_and_verify,
}

module _ (env : Env) (live : IsLive env) where
  pub wait_for_tx_live : (h : History) → wait_for_tx env h ≡ (ok tt, h)
  unfolding wait_for_tx
  wait_for_tx_live h = rw (live.mined h)

  pub send_and_wait_live :
      (c : Contract) (call : Call) (h : History)
      → send_and_wait env c call h ≡ (ok tt, sent c.signer c.address call ∷ h)
  unfolding send_and_wait send
  send_and_wait_live c call h =
      >>=-ok (send env c call) (λ _. wait_for_tx env) h (perform_live env live _ h)
      ∙ wait_for_tx_live _

  -- The record that `registerContractInJsonDb` writes.
  abbrev pub record_of : String → Contract → Action
  record_of id c =
      stored id env.network_name (record { address = c.address; deployer = some c.signer })

  pub with_save_and_verify_live :
      (c : Contract) (id : String) (args : List Arg) (h : History)
      → with_save_and_verify env c id args false h ≡ (ok c, record_of id c ∷ h)
  unfolding with_save_and_verify register_contract_in_json_db
  with_save_and_verify_live c id args h =
      ap (resume _) (wait_for_tx_live h) ∙ ap (resume _) (perform_live env live (record_of id c) h)
