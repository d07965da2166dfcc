-- ===== src/Detection.antt =====
-- How the two parts meet: a line that employee-service/main.py prints is what audit/audit.py reads.
pub mod Line
pub mod Token
pub mod Run
pub mod Vouched
pub mod Clean
pub mod Login
pub mod Bypass
pub mod Tests
