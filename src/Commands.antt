-- ===== src/Commands.antt =====
-- The small packages of internal between the command line and the service.
pub mod Format
pub mod Tag
pub mod History
pub mod Vacuum
pub mod Preview
