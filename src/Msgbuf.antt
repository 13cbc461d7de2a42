-- ===== src/Msgbuf.antt =====
-- msgbuf.c: the message buffer protocol over the rings.
pub mod Rx
pub mod Pktids
pub mod Tx
pub mod Completions
pub mod Post
