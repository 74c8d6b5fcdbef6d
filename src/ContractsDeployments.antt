-- ===== src/ContractsDeployments.antt =====
-- helpers/contracts-deployments.ts: one script for each contract. A script deploys with the first
-- signer and hands the instance to `withSaveAndVerify`, under an id of `eContractid`.
mod Save
mod Protocol
mod Libraries
mod Periphery
mod Tokens
mod Mocks
pub mod Records
pub mod Adds
pub mod Returns
unfoldable pub use Save.*
unfoldable pub use Protocol.*
unfoldable pub use Libraries.*
unfoldable pub use Periphery.*
unfoldable pub use Tokens.*
unfoldable pub use Mocks.*
