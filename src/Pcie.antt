-- ===== src/Pcie.antt =====
-- pcie.c: the callbacks by which a ring reads and writes its indices in the memory that it shares
-- with the device.
pub mod FlowControl
pub mod Sharing
use omdrop_awdl.Prelude.{
  ℕ, ◌≤◌, Bool, true, false, List, ◌∷◌, ◌++◌, [], some, if◌then◌else◌, u16, Status, success, eio,
}
use omdrop_awdl.Commonring.{Ring, Callback, Callbacks}

-- The two registers that ring the device's bell: the second one where the shared flags have
-- BRCMF_PCIE_SHARED_DAR.
pub data Mailbox : Type 0 where
  h2d_mailbox_0 : Mailbox
  h2d_mailbox_0_64 : Mailbox

-- What the callbacks use of `struct brcmf_pcie_ringbuf` and its `devinfo`: whether the state is
-- BRCMFMAC_PCIE_STATE_UP, the flag, the words at `r_idx_addr` and `w_idx_addr`, and the
-- doorbells written so far, the last one first.
pub record RingMailbox : Type 0 where
  pub up : Bool
  pub dar : Bool
  pub r_idx : ℕ
  pub w_idx : ℕ
  pub bells : List Mailbox

abbrev pub DeviceRing : Type 0
DeviceRing = Ring RingMailbox

unfoldable pub write_rptr : Callback RingMailbox
write_rptr r =
    if r.ctx.up then (success, record r { ctx = record (r.ctx) { r_idx = r.r_ptr } }) else (eio, r)

unfoldable pub write_wptr : Callback RingMailbox
write_wptr r =
    if r.ctx.up then (success, record r { ctx = record (r.ctx) { w_idx = r.w_ptr } }) else (eio, r)

unfoldable pub ring_bell : Callback RingMailbox
ring_bell r =
    if r.ctx.up
    then (
      success,
      record r {
        ctx = record (r.ctx) {
          bells = (if r.ctx.dar then h2d_mailbox_0_64 else h2d_mailbox_0) ∷ r.ctx.bells;
        };
      },
    )
    else (eio, r)

unfoldable pub update_rptr : Callback RingMailbox
update_rptr r = if r.ctx.up then (success, record r { r_ptr = r.ctx.r_idx }) else (eio, r)

unfoldable pub update_wptr : Callback RingMailbox
update_wptr r = if r.ctx.up then (success, record r { w_ptr = r.ctx.w_idx }) else (eio, r)

-- The callbacks that brcmf_pcie_alloc_dma_and_ring registers.
abbrev pub mailbox_callbacks : Callbacks RingMailbox
mailbox_callbacks = record {
  cr_ring_bell = some ring_bell;
  cr_update_rptr = some update_rptr;
  cr_update_wptr = some update_wptr;
  cr_write_rptr = some write_rptr;
  cr_write_wptr = some write_wptr;
}
