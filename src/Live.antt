-- ===== src/Live.antt =====
-- The shared camera session, src/okam_native/session.py: one helper process for each camera, whose
-- video goes to every viewer; between viewers the session stops it and shows a placeholder.
pub mod Media
pub mod State
pub mod Queues
pub mod Viewers
pub mod Pump
pub mod Threads
pub mod Soundness
pub mod Bounds
pub mod Viewing
pub mod Acquiring
pub mod Stopping
mod Tests
