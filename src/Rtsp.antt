-- ===== src/Rtsp.antt =====
-- The RTSP server's handling of H.264: the file src/okam_native/rtsp.py.
pub mod Bits
pub mod Rbsp
pub mod NalUnits
pub mod StartCodes
pub mod AccessUnits
pub mod Packets
pub mod Sps
pub mod Requests
pub mod Tests
