-- ===== src/Bench.antt =====
-- The programs beside the phone that try its parts: src/main_nonblocking_audio.c, on which src/audio.c is
-- built, and src/main_audio_test.c.
pub mod Noise
pub mod Bars
pub mod Loop
pub mod Main
mod Tests
