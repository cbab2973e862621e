-- ===== src/Carbon.antt =====
-- src/carbon.rs: the Carbon wire format. `Wire` has the primitive reads and writes, the other
-- modules have one data structure of the format each, or a family of them.
pub mod Wire
pub mod SmallString
pub mod IntX
pub mod Payload
pub mod Message
pub mod Envelope
pub mod GasConfig
pub mod Governance
pub mod Args
pub mod Signing
pub mod NftAddress
pub mod RoundTrip
mod Tests
