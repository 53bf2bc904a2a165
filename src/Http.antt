-- ===== src/Http.antt =====
-- src/http.rs: the routes, the lookups of a request and the response.
pub mod Pairs
pub mod Project
pub mod Headers
pub mod Respond
pub mod Handle
mod Tests
