-- ===== src/Auth.antt =====
-- The choice of a camera's credential: the file src/okam_native/auth.py.
pub mod Candidates
pub mod Cache
pub mod Selection
pub mod Distinct
pub mod Attempts
pub mod Resources
pub mod Effects
pub mod Tests
