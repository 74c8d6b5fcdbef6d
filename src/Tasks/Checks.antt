-- ===== src/Tasks/Checks.antt =====
-- What the verification tasks and the migration add to the history.
use vinium_lending.Effects.{Env}
use vinium_lending.Effects.Adds.{Adds}
use vinium_lending.Configuration.{ConfigNames}
use vinium_lending.Tasks.Verifications.{verify_tokens}
use vinium_lending.Tasks.Verifications.Adds.{only_verifies, verify_tokens-Adds}

-- In any world, whether it returns or throws, the verification of the tokens adds only requests and
-- verifications to the history: it deploys, sends and records nothing.
pub verify_tokens_only-Adds :
    (env : Env) (pool : ConfigNames) → Adds only_verifies (verify_tokens env pool)
verify_tokens_only-Adds env pool = verify_tokens-Adds env pool
