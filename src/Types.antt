-- ===== src/Types.antt =====
-- helpers/types.ts: the enums and the configuration types.
pub mod ContractId
pub mod Config
pub mod ProtocolErrors
pub mod TokenId
