-- ===== src/Library.antt =====
-- What a workspace keeps for its runs: profiles and saved certificates.
pub mod Examples
pub mod Profiles
pub mod Certificates
pub mod Rows
pub mod Keys
