-- ===== src/Msgbuf/Tx/Ring.antt =====
-- What reserving a slot and completing a submission ring, as transmission does, do to the ring.
use omdrop_awdl.Prelude.{◌≡◌, true, false, none, arith}
use omdrop_awdl.Commonring.{
  available_round, reserve_round, write_available, claim_one, reserve_for_write, write_complete,
}
use omdrop_awdl.Pcie.{DeviceRing, update_rptr, write_wptr, ring_bell}
use omdrop_awdl.Pcie.Sharing.{host}

-- While the bus is up, the device sees all that has been reserved.
abbrev pub IsPublished : DeviceRing → Type 0
IsPublished r = r.ctx.up ≡ true → r.ctx.w_idx ≡ r.w_ptr

pub write_complete-IsPublished : (r : DeviceRing) → IsPublished (write_complete (host r)).1.ring
unfolding write_complete write_wptr ring_bell
write_complete-IsPublished r = ground arith

pub write_complete-was_full :
    (r : DeviceRing) → (write_complete (host r)).1.ring.was_full ≡ r.was_full
unfolding write_complete write_wptr ring_bell
write_complete-was_full r = ground arith

-- A reservation that fails changes the read pointer and the mark alone.
pub reserve-none :
    (r : DeviceRing)
    → (reserve_for_write (host r)).0 ≡ none
    → ((reserve_for_write (host r)).1.ring.was_full ≡ true)
      × (IsPublished r → IsPublished (reserve_for_write (host r)).1.ring)
unfolding reserve_for_write reserve_round claim_one update_rptr
reserve-none r h = ground arith

pub check-false :
    (r : DeviceRing)
    → (write_available (host r)).0 ≡ false
    → (write_available (host r)).1.ring.was_full ≡ true
unfolding write_available available_round update_rptr
check-false r h = ground arith

pub check-IsPublished :
    (r : DeviceRing) → IsPublished r → IsPublished (write_available (host r)).1.ring
unfolding write_available available_round update_rptr
check-IsPublished r p = ground arith
