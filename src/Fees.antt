-- ===== src/Fees.antt =====
-- src/fees.rs: the offline fee calculator. `Words` has its arithmetic, `Params` its inputs,
-- `Operation` the price of one operation and `Settle` the bill of a transaction.
pub mod Words
pub mod Params
pub mod Operation
pub mod Settle
pub mod Envelope
mod Tests
