-- ===== src/Firmware.antt =====
-- firmware.c: the files that the driver hands to the device.
pub mod Nvram
pub mod Strip
