-- ===== src/Carbon/Payload.antt =====
-- TxPayload of src/carbon.rs: the messages of a transaction by kind.
pub mod Fungible
pub mod NonFungible
pub mod Trade
pub mod Call
pub mod Script
pub mod Witnesses
