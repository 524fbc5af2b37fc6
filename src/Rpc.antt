-- ===== src/Rpc.antt =====
-- The queries of the RPC node that decide something (services/solana.service.ts).
pub mod Creator
pub mod TokenAccount
