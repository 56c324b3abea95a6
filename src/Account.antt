-- ===== src/Account.antt =====
-- The cameras of an account and their configuration: the file src/okam_native/account.py.
pub mod Configuration
pub mod Selection
pub mod Uids
pub mod Cameras
pub mod Chosen
pub mod Tests
