-- ===== src/Lib.antt =====
-- The deployment and configuration scripts of the Vinium lending protocol: helpers/*.ts and
-- markets/avalanche/*.ts. They deploy the contracts, record them in deployed-contracts.json,
-- initialise and configure the reserves of a market and its oracles, and verify the sources.
--
-- A script is a function of the history of what was done so far to its result (a value or what it
-- throws) and the longer history; what was done before a throw stays done. Ethereum, hardhat, lowdb,
-- bignumber.js, OpenZeppelin Defender, Tenderly and Etherscan are not part of the repository: they
-- are the record `Env` of their answers after any history. A theorem that needs more of them names
-- it: `IsLive` (every action goes through and is mined), `IsAnswering` (view calls resolve and the
-- contracts are compiled, besides), `IsDatabase` (a record that was written is read back), or an
-- equation on one answer.
--
-- The files, each with its theorems in the modules below it:
--   Prelude: names of the libraries, lists, and objects as lists of entries in insertion order.
--   Effects: actions, the world, scripts, and their laws.
--   Types, Markets: helpers/types.ts, helpers/constants.ts (prices) and markets/avalanche. Numbers
--     are decimal texts, as there; addresses and hexadecimal data are texts.
--   MiscUtils: helpers/misc-utils.ts (`chunk`, `filterMapBy`, `omit`, `notFalsyOrZeroAddress`,
--     `waitForTx`, `impersonateAccountsHardhat`).
--   Signers: helpers/defender-utils.ts, `getEthersSigners`, `getFirstSigner`.
--   Verification: helpers/etherscan-verification.ts, helpers/tenderly-utils.ts, `verifyContract`.
--     `runTaskWithRetry` is structural recursion on the attempts left; the scripts start it with 4.
--   ContractsHelpers: helpers/contracts-helpers.ts (`registerContractInJsonDb`, `deployContract`,
--     `withSaveAndVerify`, `linkBytecode`, `getParamPerNetwork`, `getParamPerPool`);
--     its child CallData has the builders of the adapters' call data, with the encoder a parameter.
--   ContractsGetters: helpers/contracts-getters.ts, one `get_…` for each getter.
--   ContractsDeployments: helpers/contracts-deployments.ts, one `deploy_…` for each script.
--   Configuration: helpers/configuration.ts; Configuration/Risk holds the checks of
--     `configureReserveAsCollateral` (contracts/protocol/lendingpool/LendingPoolConfigurator.sol).
--   ContractAddress: `getContractAddressWithJsonFallback`, `deployViTokenImplementations`.
--   InitHelpers: helpers/init-helpers.ts (`initReservesByHelper`, `configureReservesByHelper`,
--     its own `getPairsTokenAggregator`). The loops are structural recursion on the reserves.
--   OraclesHelpers: helpers/oracles-helpers.ts.
--   MockTokens: helpers/mock-helpers.ts, and the mock tokens of the deployments and the getters.
--   Polygon: helpers/polygon-utils.ts; compiler, flattener, encoder and explorer are parameters.
--   Tasks: the tasks of tasks/full, tasks/dev, tasks/deployments, tasks/helpers,
--     tasks/verifications and tasks/migrations, and tasks/misc/verify-sc.ts, without `set-DRE`.
--   The modules named Adds show what a script may add to the history, by one rule for each way to
--   build a script (Effects/Adds); those named Returns or Live, which scripts come to their end
--   (Effects/Returns).
--   Tests: a concrete world, and the theorems at concrete inputs.
--
-- Not modelled: console output, delays and temporary files; the tasks of tasks/misc that print or
-- connect; the settings of the build; the control of the test node's clock and the builders of
-- signatures for the test suites; the Solidity contracts, which these scripts only call. Where the
-- network has no account the model fails at once, and the source at the first use of the undefined
-- signer.
pub mod Prelude
pub mod Effects
pub mod MiscUtils
pub mod Signers
pub mod Verification
pub mod Types
pub mod ContractsHelpers
pub mod Markets
pub mod ContractsGetters
pub mod ContractsDeployments
pub mod Configuration
pub mod ContractAddress
pub mod InitHelpers
pub mod MockTokens
pub mod Polygon
pub mod OraclesHelpers
pub mod Tasks
pub mod Tests
