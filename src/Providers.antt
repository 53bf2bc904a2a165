-- ===== src/Providers.antt =====
-- src/providers.rs: the adapters of the two providers, their requests and the reports they accept.
pub mod Adapter
pub mod Report
pub mod Abuseipdb
pub mod Virustotal
pub mod Decode
pub mod Identity
pub mod Answers
mod Tests
pub mod Example
