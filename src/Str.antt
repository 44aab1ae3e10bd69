-- ===== src/Str.antt =====
-- utils.c and the path helpers of udev-utils.c: C strings as texts.
pub mod Paths
pub mod Copy
pub mod KernProp
