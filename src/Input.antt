-- ===== src/Input.antt =====
-- udev-dev.c: the properties that input devices get.
pub mod Bits
pub mod Evdev
pub mod Properties
