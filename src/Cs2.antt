-- ===== src/Cs2.antt =====
-- The P2P client, src/okam_native/cs2.py.
pub mod Cipher
pub mod Address
pub mod Service
pub mod Channel
pub mod World
pub mod State
pub mod Pending
pub mod Session
pub mod Transfer
pub mod Commands
pub mod Connect
pub mod Login
pub mod Examples
mod Tests
