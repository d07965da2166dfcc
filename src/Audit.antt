-- ===== src/Audit.antt =====
-- audit/audit.py: the audit of the access logs against Keycloak's events.
pub mod Keys
pub mod Loki
pub mod Clock
pub mod Latest
pub mod Events
pub mod Bypass
pub mod Issuance
pub mod Login
pub mod Report
pub mod Output
mod Demo
pub mod Tests
