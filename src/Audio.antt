-- ===== src/Audio.antt =====
-- src/audio.c and include/audio.h: the life of the audio module. `Control` is the part that starts and
-- stops it, `Flags` what holds of that.
pub mod Control
pub mod Flags
pub mod Frames
pub mod Threads
pub mod Pools
mod Tests
