-- ===== src/Effects.antt =====
-- What the deployment scripts do to the world outside, and what they read of it. Ethereum (through
-- ethers and hardhat), lowdb's deployed-contracts.json and the process are not part of the
-- repository: they are `Env`, the answers that they give after the actions taken so far. A script
-- is a function of that history, so whatever a stateful world may answer is some `Env`.
mod Actions
mod World
mod Monad
pub mod Laws
pub mod Ensures
pub mod Adds
pub mod Ends
pub mod Returns
pub use Actions.*
unfoldable pub use World.*
unfoldable pub use Monad.*
