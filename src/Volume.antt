-- ===== src/Volume.antt =====
-- volume_mixer/, a program of its own: a knob sets the volume, which a display of two digits shows.
-- `Gpio` is its file.c and gpio.c, `I2c` its i2c.c, `Mixer` and `Main` its volume_mixer.c.
pub mod Gpio
pub mod I2c
pub mod Mixer
pub mod Main
pub mod Reading
pub mod Digits
mod Tests
