-- ===== src/Domain.antt =====
-- src/domain.rs: the public contract and request validation.
pub mod Types
pub mod ProviderName
pub mod KindName
pub mod Errors
pub mod Outcome
pub mod Indicator
pub mod Request
pub mod Item
pub mod Validate
pub mod Details
pub mod Accepted
pub mod RequestLaws
pub mod ProviderOrder
pub mod ItemLaws
pub mod Example
mod Tests
