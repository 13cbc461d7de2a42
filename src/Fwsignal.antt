-- ===== src/Fwsignal.antt =====
-- fwsignal.c: flow control by signals of the firmware.
pub mod Hanger
pub mod Reorder
pub mod Credits
pub mod Signals
pub mod Macdesc
