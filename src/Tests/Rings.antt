-- ===== src/Tests/Rings.antt =====
-- The rings: commonring.c with the callbacks of pcie.c, and the reading loop of msgbuf.c.
use omdrop_awdl.Prelude.{◌+◌, ◌≤◌, ◌<◌, ◌≡◌, refl, inr, true, false, some, [], ◌∷◌, arith}
use omdrop_awdl.Commonring.{
  reserve_for_write_multiple, write_complete, write_cancel, write_available, available, config,
}
use omdrop_awdl.Pcie.{DeviceRing, update_rptr}
use omdrop_awdl.Pcie.Sharing.{
  host, IsUnread, here, next, reserve_multiple, complete, IsSafe, Reach-IsSafe, config-IsSafe,
  reserve_multiple_no_overwrite, write_cancel-reserve_multiple,
}
use omdrop_awdl.Pcie.FlowControl.{write_available_hysteresis}
use omdrop_awdl.Msgbuf.Rx.{process_rx}
use omdrop_awdl.Msgbuf.Rx.Drain.{process_rx_drains}

-- A ring of eight slots of 16 bytes at address 1000: the host has seen the device read up to slot
-- 6, and has written up to slot 2, round the end; the device has published its index 7.
abbrev wrapped : DeviceRing
wrapped = record {
  r_ptr = 6;
  w_ptr = 2;
  f_ptr = 2;
  depth = 8;
  item_len = 16;
  buf_addr = 1000;
  inited = true;
  was_full = false;
  ctx = record { up = true; dar = false; r_idx = 7; w_idx = 2; bells = [] };
}

wrapped-IsSafe : IsSafe wrapped
wrapped-IsSafe = omega arith

-- Three slots are asked for and granted.
grant_three : (reserve_for_write_multiple (host wrapped) 3).0 ≡ some (1032, 3)
unfolding reserve_for_write_multiple
grant_three = refl

Reach-IsSafe_example :
    IsSafe (write_complete (host (reserve_for_write_multiple (host wrapped) 3).1.ring)).1.ring
Reach-IsSafe_example = Reach-IsSafe (next (next here (reserve_multiple 3)) complete) wrapped-IsSafe

reserve_multiple_no_overwrite_example :
    (1032 ≡ wrapped.buf_addr + 32) × (3 ≤ 3) × (4 < 8) × ¬ IsUnread wrapped 4
reserve_multiple_no_overwrite_example =
    reserve_multiple_no_overwrite 3 1032 3 2 wrapped-IsSafe here grant_three (omega arith)

write_cancel-reserve_multiple_example :
    (write_cancel (reserve_for_write_multiple (host wrapped) 3).1 2).w_ptr ≡ 3
write_cancel-reserve_multiple_example =
    write_cancel-reserve_multiple 3 1032 3 2 wrapped-IsSafe here grant_three (omega arith)
      (omega arith)

config-IsSafe_example : IsSafe (config (host wrapped) 512 48 4096).ring
config-IsSafe_example = config-IsSafe wrapped 512 48 4096 refl (omega arith) (omega arith)

-- The same ring with one slot free by the pointer that the host holds, and two by the device's.
abbrev full : DeviceRing
full = record wrapped { w_ptr = 5; f_ptr = 5; was_full = true }

-- Two slots are enough, where an eighth of the slots is one.
full_resumes : (write_available (host full)).0 ≡ true
unfolding write_available update_rptr
full_resumes = refl

write_available_hysteresis_example : (write_available (host full)).0 ≡ true
unfolding update_rptr available
write_available_hysteresis_example = (write_available_hysteresis full refl).0.1 (inr (omega arith))

-- A completion ring with items in slots 6, 7, 0 and 1.
abbrev filled : DeviceRing
filled = record wrapped { w_ptr = 6; ctx = record (wrapped.ctx) { r_idx = 6 } }

process_rx_drains_example :
    process_rx 4 2 (host filled)
    ≡ some (
      1100 ∷ 1116 ∷ 1004 ∷ 1020 ∷ [],
      host (record filled { r_ptr = 2; w_ptr = 2; ctx = record (filled.ctx) { r_idx = 2 } }),
    )
process_rx_drains_example = process_rx_drains 4 0 filled (record {
  up = refl;
  fits = omega arith;
  r_in = omega arith;
  w_in = omega arith;
  reported = refl;
})
