-- ===== src/Probes/Http.antt =====
-- probes/http.rs.
pub mod Args
pub mod Body
pub mod Status
pub mod Headers
pub mod Url
pub mod Target
pub mod Client
pub mod Evaluate
