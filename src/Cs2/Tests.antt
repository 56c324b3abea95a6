-- ===== src/Cs2/Tests.antt =====
-- Runs of the client on small inputs, and instances of the theorems about it.
mod Packets
mod Sessions
mod Retries
mod Directory
mod Commands
mod Connecting
mod Logins
