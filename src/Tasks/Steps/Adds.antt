-- ===== src/Tasks/Steps/Adds.antt =====
-- What the shared parts of the tasks add to the history.
use vinium_lending.Prelude.{String, Bool, Option}
use vinium_lending.Effects.{Env, Action, History, M, Result, ok, err, type_error}
use vinium_lending.Effects.Adds.{Adds, Extends, Adds-elim_bool, Adds-or_throw}
use vinium_lending.MiscUtils.{not_falsy_or_zero_address}
use vinium_lending.Tasks.Steps.{reuse_or_deploy, exit_on_error}

module _ {p : Action → Bool} where
  pub reuse_or_deploy-Adds :
      (env : Env) (address : Option String) (deployment : M String)
      → Adds p deployment
      → Adds p (reuse_or_deploy env address deployment)
  unfolding reuse_or_deploy
  reuse_or_deploy-Adds env address deployment deploys =
      Adds-elim_bool (not_falsy_or_zero_address env address) _ _ (Adds-or_throw address type_error)
        deploys

  exit_on_error_same :
      {A : Type 0} {h : History} (r : Result A × History)
      → Extends p h r.1
      → Extends p h (exit_on_error r).1
  exit_on_error_same (ok a, k) extends = extends
  exit_on_error_same (err e, k) extends = extends

  pub exit_on_error-Adds : {A : Type 0} (m : M A) → Adds p m → Adds p (λ h. exit_on_error (m h))
  exit_on_error-Adds m adds = record { at = λ h. exit_on_error_same (m h) (adds.at h) }
