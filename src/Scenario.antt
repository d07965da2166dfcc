-- ===== src/Scenario.antt =====
-- audit/scenario.py, which sends the requests that the audit then finds in the logs.
pub mod Web
pub mod Form
pub mod Responses
pub mod Login
pub mod Steps
pub mod Token
pub mod Bypass
pub mod Run
pub mod Tests
