-- ===== src/Enrichment.antt =====
-- src/enrichment.rs: a lookup of one indicator at one provider, from the cache or by a shared flight.
pub mod Lookup
pub mod Feedback
pub mod Transport
pub mod Store
pub mod Send
pub mod Fetch
pub mod Perform
pub mod Flights
pub mod Caller
pub mod Shutdown
mod Tests
