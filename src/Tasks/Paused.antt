-- ===== src/Tasks/Paused.antt =====
-- The tasks of the full deployment and the pause of the pool.
use vinium_lending.Prelude.{Bool, true, refl}
use vinium_lending.Effects.{Env, Call, set_pool_pause}
use vinium_lending.Effects.Adds.{Adds, allows}
use vinium_lending.Configuration.{ConfigNames}
use vinium_lending.Tasks.Registry.{deploy_address_provider_registry, deploy_address_provider}
use vinium_lending.Tasks.Registry.Adds.{
  ProviderCalls, deploy_address_provider_registry-Adds, deploy_address_provider-Adds,
}
use vinium_lending.Tasks.LendingPool.{deploy_lending_pool_task}
use vinium_lending.Tasks.LendingPool.Adds.{PoolCalls, deploy_lending_pool_task-Adds}
use vinium_lending.Tasks.Oracles.{deploy_oracles}
use vinium_lending.Tasks.Oracles.Adds.{OracleCalls, deploy_oracles-Adds}
use vinium_lending.Tasks.Initialize.{
  deploy_data_provider, full_deploy_weth_gateway, initialize_lending_pool, add_new_tokens,
}
use vinium_lending.Tasks.Initialize.Adds.{
  InitializeCalls, deploy_data_provider-Adds, full_deploy_weth_gateway-Adds,
  initialize_lending_pool-Adds, add_new_tokens-Adds,
}

-- `setPoolPause` is called to pause only.
abbrev pub keeps_paused : Call → Bool
keeps_paused (set_pool_pause paused) = paused
keeps_paused _ = true

provider_calls : ProviderCalls keeps_paused
provider_calls = record {
  sets_pool_admin = λ admin. refl;
  sets_emergency_admin = λ admin. refl;
  registers = λ provider id. refl;
  funds = λ value. refl;
}

pool_calls : PoolCalls keeps_paused
pool_calls = record {
  initializes = λ provider. refl;
  sets_pool = λ impl. refl;
  sets_configurator = λ impl. refl;
  pauses = refl;
}

oracle_calls : OracleCalls keeps_paused
oracle_calls = record {
  rates = record {
    transfers = λ owner. refl;
    sets = λ assets rates oracle. refl;
    returns = λ oracle admin. refl;
  };
  sets_sources = λ assets sources. refl;
  sets_prices = λ oracle. refl;
  sets_rates = λ oracle. refl;
}

initialize_calls : InitializeCalls keeps_paused
initialize_calls = record {
  reserves = record {
    initializes = λ inputs. refl;
    configures = λ inputs. refl;
    hands_over = λ admin. refl;
  };
  sets_manager = λ address. refl;
  sets_address = λ id address. refl;
  authorizes = λ pool. refl;
}

-- In any world and from any history, whether they return or throw, the eight tasks of tasks/full only
-- add to the history, and no transaction that they add unpauses a pool.
pub full_tasks-Adds :
    (env : Env) (pool : ConfigNames) (verify skip_registry : Bool)
    → Adds (allows keeps_paused) (deploy_address_provider_registry env pool verify)
      × Adds (allows keeps_paused) (deploy_address_provider env pool verify skip_registry)
      × Adds (allows keeps_paused) (deploy_lending_pool_task env pool verify)
      × Adds (allows keeps_paused) (deploy_oracles env pool verify)
      × Adds (allows keeps_paused) (deploy_data_provider env verify)
      × Adds (allows keeps_paused) (full_deploy_weth_gateway env pool verify)
      × Adds (allows keeps_paused) (initialize_lending_pool env pool verify)
      × Adds (allows keeps_paused) (add_new_tokens env pool verify)
full_tasks-Adds env pool verify skip_registry = (
  deploy_address_provider_registry-Adds env provider_calls pool verify,
  deploy_address_provider-Adds env provider_calls pool verify skip_registry,
  deploy_lending_pool_task-Adds env pool_calls pool verify,
  deploy_oracles-Adds env oracle_calls pool verify,
  deploy_data_provider-Adds env keeps_paused verify,
  full_deploy_weth_gateway-Adds env keeps_paused pool verify,
  initialize_lending_pool-Adds env initialize_calls pool verify,
  add_new_tokens-Adds env initialize_calls pool verify,
)
