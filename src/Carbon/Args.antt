-- ===== src/Carbon/Args.antt =====
-- The configuration records of src/carbon.rs and the arguments of its contract methods.
pub mod Fungible
pub mod NonFungible
pub mod Minting
pub mod Listing
pub mod Market
pub mod ChainConfig
pub mod RoundTrip
mod Tests
