-- ===== src/Call.antt =====
-- src/call.c, src/trek.c and include/call.h: a call over a connection. `Datagram` moves frame buffers,
-- `Recording` joins sendDatagram with the audio threads, `Trek` plays the greeting, `Session` begins and ends a call.
pub mod Datagram
pub mod Sending
pub mod Receiving
pub mod Recording
pub mod Trek
pub mod Session
mod Tests
