-- ===== src/Pcie/FlowControl.antt =====
-- `write_available` on a ring with the callbacks of pcie.c: when the host may go on writing.
use omdrop_awdl.Prelude.{◌/◌, ◌<◌, ◌≡◌, ◌⊎◌, ◌↔◌, true, not, arith}
use omdrop_awdl.Commonring.{available, available_round, write_available}
use omdrop_awdl.Pcie.{DeviceRing, update_rptr}
use omdrop_awdl.Pcie.Sharing.{host}

-- More than an eighth of the slots are free, and two at least.
abbrev pub HasRoom : DeviceRing → Type 0
HasRoom r = (1 < available r) × (r.depth / 8 < available r)

-- On a ring that a failed reservation has marked as full, write_available answers yes exactly when
-- more than an eighth of the slots and at least two are free, by the read pointer that the host
-- holds or by the one that it then fetches, and the mark is cleared exactly then.
pub write_available_hysteresis :
    (r : DeviceRing)
    → r.was_full ≡ true
    → (((write_available (host r)).0 ≡ true) ↔ (HasRoom r ⊎ HasRoom (update_rptr r).1))
      × ((write_available (host r)).1.was_full ≡ not (write_available (host r)).0)
unfolding write_available update_rptr available_round
write_available_hysteresis r full = ground arith
