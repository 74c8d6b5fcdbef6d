-- ===== src/Tasks.antt =====
-- tasks/: the steps of a deployment and of its verification, as scripts over the helpers. `set-DRE`,
-- which connects the process to its network, is left out.
pub mod Steps
pub mod Registry
pub mod LendingPool
pub mod Oracles
pub mod Initialize
pub mod Deployments
pub mod Dev
pub mod NewAsset
pub mod Verifications
pub mod Paused
pub mod Checks
pub mod Pause
pub mod Outcomes
pub mod Registration
unfoldable pub use Steps.*
