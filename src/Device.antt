-- ===== src/Device.antt =====
-- udev-device.c: what a device tells of itself, and its chain of parents.
pub mod Values
pub mod Parents
pub mod Devnum
pub mod Accessors
pub mod Lists
pub mod Descriptors
