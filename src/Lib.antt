-- ===== src/Lib.antt =====
-- Verification of the O-KAM native bridge, which finds the cameras of an O-KAM account, connects to
-- them over the CS2/PPPP peer-to-peer protocol, and serves their H.264 video over RTSP.
--
-- The program and its parts. The account part selects cameras by the options; the authentication
-- part tries credentials for a camera in turn and remembers the source that worked; the
-- peer-to-peer client carries commands and video over UDP; the RTSP server cuts the video into NAL
-- units, groups them into access units and sends these as RTP packets; a camera session starts the native
-- helper of a camera when somebody watches, gives its video to every viewer, and stops it again; the ARP
-- listener notices that a battery camera wakes up.
--
-- The files, with the code that each models:
-- * Cs2 and its children, src/okam_native/cs2.py: Cipher (`_key_hash`, `encrypt_packet`, `decrypt_packet`,
--   `_encode_wire_packets`, the checks of `_receive_clear`), Address (`encode_network_address`,
--   `decode_network_address`, the relay packets), Service (`decode_service_parameter`,
--   `encode_uid`), Channel (the reassembly of one channel: `_handle_data` behind its
--   acknowledgement, and the cut of `read_exact`), World (clock and network), State (`CS2Session`,
--   `_count`), Pending (the packets not yet acknowledged), Session (`_send_clear`,
--   `_receive_clear`, `_handle_data`, `_handle_ack`, `_retransmit`, `_pump`, `close`), Connect (`connect`), Transfer
--   (`write`, `read_exact`), Commands (`make_cgi_request`, the header of `read_command`, `parse_result`), Login
--   (`authenticate_camera`, `read_command`, `read_video_frame`, `inspect_h264`).
-- * Rtsp and its children, src/okam_native/rtsp.py: Bits (`_BitReader`), Rbsp (`_nal_rbsp`, `_sps_rbsp`,
--   `_vcl_starts_new_picture`), Sps (`_frame_ticks_from_sps`), NalUnits (`_nal_units`), AccessUnits
--   (`_AccessUnitAssembler`), Packets (`_rtp_packets`, `_send_access_unit`), Requests (`_handle_request`,
--   `_reply`).
-- * Live and its children, src/okam_native/session.py: Media (`_note_media`, `_record_unit`, `_preamble`,
--   `_diagnostic`), State (`NativeStreamSession` and its fields), Queues (`_put_chunk`), Viewers
--   (a turn of `acquire` under the lock, `release`, `close`, `_start_locked`, `_stop_if_idle`), Acquiring
--   (`acquire` with its waits), Pump (`_pump`, `_drain_stderr`,
--   `_parse_summary_locked`), Threads (`_standby_loop`, `_terminate`, and the steps in any order).
-- * Auth and its children, src/okam_native/auth.py: Candidates (`build_candidates`), Cache
--   (`CredentialSourceCache`), Selection (`authenticate`, `authenticate_resource`).
-- * Account and its children, src/okam_native/account.py: Configuration (`normalize_camera_uids`,
--   `normalize_camera_configurations`), Selection (`select_account_devices`,
--   `configured_camera_selections`).
-- * Arp, src/okam_native/arp_listener.py: `parse_arp_packet`, `parse_arp_request`, `_handle_packet`.
-- * Prelude (shared names, lists, bytes, actions with state and exceptions), Inet and Unicode (what the
--   program uses of Python's `socket` and `str`, as interfaces with the documented laws).
-- The other children of a part hold its theorems; modules called Tests hold instances and runs.
--
-- State and exceptions. A method that changes an object is an action of Prelude.Exec: from a state to a
-- result beside a state, since what was written before an exception stays written. A `CS2Session` is
-- the record `Session`; its dictionaries and sets are lists in order of insertion. The world is a
-- parameter: the n-th reading of the clock, the n-th answer of `recvfrom` and whether the n-th `sendto` is
-- refused; the session counts these, and keeps what went out. Times are milliseconds, so that the
-- constants of the code, which are tenths of a second, are whole numbers.
--
-- Threads. What a method of the camera session does under the lock is one step; what it does behind is a
-- list of entries to put into queues and a rest, which other steps may come between. A helper process is
-- named by its generation, and may exit at any time. `_put_chunk` is one step, and the end of a thread
-- comes with its last step. A queue is a place in a list, which viewers and threads share.
--
-- Numbers are natural numbers, with the reductions that the code writes (`& 0xFFFF` as `% 2 ^ 16`). A Python
-- value whose type the code tests is a data type with one constructor for each answer of the test.
--
-- Bounds and fuel. The loops of `connect`, `read_exact` and `write` that wait for the network run for a given number of
-- rounds; where the clock, which cannot go backwards, has met the deadline by its n-th reading, more than n
-- rounds are enough. The loops
-- over the bytes of a payload, a stream or a NAL unit take at least one byte in a round, so its length is
-- enough. The packets that wait in a channel are at most 64, and each round of `drain` takes one.
--
-- Not modelled: the framing and parsing of requests in
-- src/okam_native/rtsp.py; the cache file of src/okam_native/auth.py; the HTTP requests of
-- src/okam_native/account.py; sockets and the texts of log lines everywhere; src/okam_native/p2p.py but
-- for `AuthenticationResult`, `snapshot` of session.py, and bridge.py, amd64_helper.py and wakeup.py beside it;
-- okam_native_app and custom_components, which start processes or speak to Home Assistant; native and tools.
-- In `authenticate` the cache is read before the camera's lock is taken: that another call changes it in
-- between is left out.
-- A login result is a natural number: negative ones, which the code treats like any other than 0, are left out.
pub mod Account
pub mod Arp
pub mod Auth
pub mod Cs2
pub mod Inet
pub mod Live
pub mod Prelude
pub mod Rtsp
pub mod Unicode
