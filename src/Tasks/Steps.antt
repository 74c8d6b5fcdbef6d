-- ===== src/Tasks/Steps.antt =====
-- What the tasks share: reused addresses, and failures that end the process.
pub mod Adds
use vinium_lending.Prelude.{
  ℕ, String, Bool, true, false, Option, none, some, nat_beq, if◌then◌else◌,
}
use vinium_lending.Effects.{Env, History, M, Result, ok, err, or_throw, type_error, exited}
use vinium_lending.MiscUtils.{not_falsy_or_zero_address}

-- `if (!notFalsyOrZeroAddress(address)) { … }` around a deployment whose address is used instead.
unfoldable pub reuse_or_deploy : Env → Option String → M String → M String
unfolding not_falsy_or_zero_address
reuse_or_deploy env address deployment = elim (not_falsy_or_zero_address env address) [
  | true ↦ or_throw address type_error
  | false ↦ deployment
]

-- `try { … } catch (err) { console.error(err); exit(1); }`
abbrev pub exit_on_error : {A : Type 0} → Result A × History → Result A × History
exit_on_error (ok a, h) = (ok a, h)
exit_on_error (err e, h) = (err (exited 1), h)

-- `if (!chainId)`: no chain id, or 0.
abbrev pub is_chain : Option ℕ → Bool
is_chain none = false
is_chain (some id) = if nat_beq id 0 then false else true
