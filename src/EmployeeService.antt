-- ===== src/EmployeeService.antt =====
-- employee-service/: the HTTP service that looks employees up.
pub mod Encoding
pub mod Request
pub mod Dpop
pub mod Auth
pub mod Employee
pub mod Start
pub mod Demo
pub mod Tests
