-- ===== src/Pcie/Sharing.antt =====
-- A submission ring as the host (commonring.c, with the callbacks of pcie.c) and the device use it
-- at the same time: the interleavings of their steps.
use omdrop_awdl.Prelude.{
  ℕ, suc, ◌+◌, ◌-◌, ◌*◌, ◌^◌, ◌≤◌, ◌<◌, ◌≡◌, ◌∙◌, ap, ap₂, refl, Bool, true, some, arith,
}
use omdrop_awdl.Commonring.{
  Commonring, available, claim_one, claim_many, config, write_available, reserve_for_write,
  reserve_for_write_multiple, write_complete, write_cancel,
}
use omdrop_awdl.Commonring.Space.{
  gap, advance, used, InBounds, claim_one_lem, claim_many_lem, claim_many-address,
  reserve_round_keeps, write_cancel_lem, available_round_keeps, reserve_for_write_multiple-some,
}
use omdrop_awdl.Pcie.{
  RingMailbox, DeviceRing, mailbox_callbacks, write_rptr, write_wptr, ring_bell, update_rptr,
}

abbrev pub host : DeviceRing → Commonring RingMailbox
host r = record { ring = r; calls = mailbox_callbacks }

-- The slots that the host has published and the device has not yet read.
abbrev pub unread : DeviceRing → ℕ
unread r = gap r.depth r.ctx.r_idx r.ctx.w_idx

-- Slot `i` is one of them.
abbrev pub IsUnread : DeviceRing → ℕ → Type 0
IsUnread r i = gap r.depth r.ctx.r_idx i < unread r

-- A step of the host under the ring's lock, of the device, or of the power management.
pub data Step (r : DeviceRing) : DeviceRing → Type 0 where
  reserve : Step r (reserve_for_write (host r)).1.ring
  reserve_multiple : (n : ℕ) → Step r (reserve_for_write_multiple (host r) n).1.ring
  -- Several slots are reserved, and `k` of them are handed back.
  hand_back :
      (n k p alloced : ℕ)
      → (reserve_for_write_multiple (host r) n).0 ≡ some (p, alloced)
      → 0 < k
      → k ≤ alloced
      → Step r (write_cancel (reserve_for_write_multiple (host r) n).1 k).ring
  check : Step r (write_available (host r)).1.ring
  complete : Step r (write_complete (host r)).1.ring
  device_read :
      (k : ℕ)
      → k ≤ unread r
      → Step r (record r { ctx = record (r.ctx) { r_idx = advance r.depth r.ctx.r_idx k } })
  power : (b : Bool) → Step r (record r { ctx = record (r.ctx) { up = b } })

pub data Reach (r : DeviceRing) : DeviceRing → Type 0 where
  here : Reach r r
  next : {s t : DeviceRing} → Reach r s → Step s t → Reach r t

pub Reach-trans : {r s t : DeviceRing} → Reach r s → Reach s t → Reach r t
Reach-trans p here = p
Reach-trans p (next q step) = next (Reach-trans p q) step

-- Going round the ring from the host's read pointer, one meets the device's read index, then the
-- device's write index, then the host's write pointer.
pub record IsSafe (r : DeviceRing) : Type 0 where
  pub bounds : InBounds r
  pub r_idx_in : r.ctx.r_idx < r.depth
  pub w_idx_in : r.ctx.w_idx < r.depth
  pub order : gap r.depth r.r_ptr r.ctx.r_idx + unread r + gap r.depth r.ctx.w_idx r.w_ptr ≡ used r

-- A safe ring that differs from `r` by refreshes of the read pointer alone.
record IsRefreshOf (r s : DeviceRing) : Type 0 where
  safe : IsSafe s
  same_w : s.w_ptr ≡ r.w_ptr
  same_depth : s.depth ≡ r.depth
  same_addr : s.buf_addr ≡ r.buf_addr
  same_len : s.item_len ≡ r.item_len
  same_w_idx : s.ctx.w_idx ≡ r.ctx.w_idx
  same_r_idx : s.ctx.r_idx ≡ r.ctx.r_idx

pub update_rptr-IsSafe : (r : DeviceRing) → IsSafe r → IsSafe (update_rptr r).1
unfolding update_rptr
update_rptr-IsSafe r v = ground arith

-- The host may move its write pointer on as long as one slot stays free.
advance-IsSafe :
    (k : ℕ) (r : DeviceRing)
    → IsSafe r
    → used r + k < r.depth
    → IsSafe (record r { w_ptr = advance r.depth r.w_ptr k })
advance-IsSafe k r v h = ground arith

claim_one-IsSafe : (r : DeviceRing) → IsSafe r → 1 < available r → IsSafe (claim_one r).1
claim_one-IsSafe r v h =
    let lem = claim_one_lem r v.bounds h in rw lem.0 (advance-IsSafe 1 r v lem.1)

claim_many-IsSafe :
    (n : ℕ) (r : DeviceRing) → IsSafe r → 1 < available r → IsSafe (claim_many n r).1
claim_many-IsSafe n r v h =
    let lem = claim_many_lem n r v.bounds h in
    rw lem.0 (advance-IsSafe ((claim_many n r).0.1) r v lem.1)

check-IsSafe : (r : DeviceRing) → IsSafe r → IsSafe (write_available (host r)).1.ring
unfolding write_available
check-IsSafe r v =
    available_round_keeps IsSafe (λ b r v. ground arith) 1 (host r) update_rptr-IsSafe v

reserve-IsSafe : (r : DeviceRing) → IsSafe r → IsSafe (reserve_for_write (host r)).1.ring
unfolding reserve_for_write
reserve-IsSafe r v =
    reserve_round_keeps IsSafe claim_one (λ r v. ground arith) claim_one-IsSafe 1 (host r)
      update_rptr-IsSafe v

reserve_multiple-IsSafe :
    (n : ℕ) (r : DeviceRing) → IsSafe r → IsSafe (reserve_for_write_multiple (host r) n).1.ring
unfolding reserve_for_write_multiple
reserve_multiple-IsSafe n r v =
    reserve_round_keeps IsSafe (claim_many n) (λ r v. ground arith) (claim_many-IsSafe n) 1 (host r)
      update_rptr-IsSafe v

-- What is handed back was claimed, so `w_ptr` ends between its old and its new place.
hand_back-IsSafe :
    (r : DeviceRing) (n k p alloced : ℕ)
    → IsSafe r
    → (reserve_for_write_multiple (host r) n).0 ≡ some (p, alloced)
    → 0 < k
    → k ≤ alloced
    → IsSafe (write_cancel (reserve_for_write_multiple (host r) n).1 k).ring
hand_back-IsSafe r n k p alloced v e pos le =
    let (s, vs, room, claimed) =
      reserve_for_write_multiple-some IsSafe n (host r) update_rptr-IsSafe v (p, alloced) e in
    let (moved, fits, _, _, ahead) = claim_many_lem n s vs.bounds room in
    let count : (claim_many n s).0.1 ≡ alloced = cc in
    rw
      (write_cancel_lem s (reserve_for_write_multiple (host r) n).1 alloced k vs.bounds
        (omega arith) (cc) pos le)
      (advance-IsSafe (alloced - k) s vs (omega arith))

complete-IsSafe : (r : DeviceRing) → IsSafe r → IsSafe (write_complete (host r)).1.ring
unfolding write_complete write_wptr ring_bell
complete-IsSafe r v = ground arith

device_read-IsSafe :
    (r : DeviceRing) (k : ℕ)
    → k ≤ unread r
    → IsSafe r
    → IsSafe (record r { ctx = record (r.ctx) { r_idx = advance r.depth r.ctx.r_idx k } })
device_read-IsSafe r k h v = ground arith

-- A ring that is configured with a depth from 1 to 65535 while the bus is up starts in a safe
-- state.
pub config-IsSafe :
    (r : DeviceRing) (depth item_len buf_addr : ℕ)
    → r.ctx.up ≡ true
    → 0 < depth
    → depth < 2 ^ 16
    → IsSafe (config (host r) depth item_len buf_addr).ring
unfolding config write_rptr write_wptr
config-IsSafe r depth item_len buf_addr up pos fits = ground arith

Step-IsSafe : {r s : DeviceRing} → Step r s → IsSafe r → IsSafe s
Step-IsSafe {r} reserve v = reserve-IsSafe r v
Step-IsSafe {r} (reserve_multiple n) v = reserve_multiple-IsSafe n r v
Step-IsSafe {r} (hand_back n k p alloced e pos le) v = hand_back-IsSafe r n k p alloced v e pos le
Step-IsSafe {r} check v = check-IsSafe r v
Step-IsSafe {r} complete v = complete-IsSafe r v
Step-IsSafe {r} (device_read k h) v = device_read-IsSafe r k h v
Step-IsSafe (power b) v = ground arith

-- Whatever the order in which the host reserves slots, hands some back, checks for space and
-- completes, the device reads what is published, and the bus goes up and down, the five positions
-- of a submission ring stay on the ring and keep their cyclic order: the read pointer that the host
-- holds, the device's read index, the published write index, the host's write pointer.
pub Reach-IsSafe : {r s : DeviceRing} → Reach r s → IsSafe r → IsSafe s
Reach-IsSafe here v = v
Reach-IsSafe (next reached step) v = Step-IsSafe step (Reach-IsSafe reached v)

IsSafe-IsRefreshOf : (r : DeviceRing) → IsSafe r → IsRefreshOf r r
IsSafe-IsRefreshOf r v = record {
  safe = v;
  same_w = refl;
  same_depth = refl;
  same_addr = refl;
  same_len = refl;
  same_w_idx = refl;
  same_r_idx = refl;
}

update_rptr-IsRefreshOf : (r s : DeviceRing) → IsRefreshOf r s → IsRefreshOf r (update_rptr s).1
unfolding update_rptr
update_rptr-IsRefreshOf r s f = ground arith

address_of :
    (r s : DeviceRing) (p : ℕ)
    → IsRefreshOf r s
    → p ≡ s.buf_addr + s.w_ptr * s.item_len
    → p ≡ r.buf_addr + r.w_ptr * r.item_len
address_of r s p f e = cc (e, f.same_w, f.same_addr, f.same_len)

-- A slot that fits into the free space of the refreshed ring is none of the device's.
claimed-not-IsUnread :
    (r s : DeviceRing) (i : ℕ)
    → IsRefreshOf r s
    → used s + suc i < s.depth
    → s.w_ptr + i < s.depth
    → ¬ IsUnread r (r.w_ptr + i)
claimed-not-IsUnread r s i f room fits = ground arith

-- In every state that is reachable from a safe one, a reservation of several slots that succeeds
-- returns the address of the slot at the write pointer and at most the number asked for, and each
-- slot that it grants lies in the buffer and holds no item that the device has yet to read.
pub reserve_multiple_no_overwrite :
    {start r : DeviceRing} (n p alloced i : ℕ)
    → IsSafe start
    → Reach start r
    → (reserve_for_write_multiple (host r) n).0 ≡ some (p, alloced)
    → i < alloced
    → (p ≡ r.buf_addr + r.w_ptr * r.item_len)
      × (alloced ≤ n)
      × (r.w_ptr + i < r.depth)
      × ¬ IsUnread r (r.w_ptr + i)
reserve_multiple_no_overwrite {r} n p alloced i v reached e h =
    let (s, f, room, claimed) =
      reserve_for_write_multiple-some (IsRefreshOf r) n (host r) (update_rptr-IsRefreshOf r)
        (IsSafe-IsRefreshOf r (Reach-IsSafe reached v)) (p, alloced) e in
    let lem = claim_many_lem n s f.safe.bounds room in
    let address = claim_many-address n s in
    let count : (claim_many n s).0.1 ≡ alloced = cc in
    let same : p ≡ s.buf_addr + s.w_ptr * s.item_len = cc (claimed, address) in
    (
      address_of r s p f same,
      omega (arith, lem.2),
      omega (arith, lem.4, f.same_w, f.same_depth),
      claimed-not-IsUnread r s i f (omega (arith, lem.1)) (omega (arith, lem.4)),
    )

-- After a reservation of several slots that succeeds in a reachable state, handing back one or more
-- of them leaves the write pointer as if only the others had been reserved; handing back all
-- restores it.
pub write_cancel-reserve_multiple :
    {start r : DeviceRing} (n p alloced k : ℕ)
    → IsSafe start
    → Reach start r
    → (reserve_for_write_multiple (host r) n).0 ≡ some (p, alloced)
    → 0 < k
    → k ≤ alloced
    → (write_cancel (reserve_for_write_multiple (host r) n).1 k).w_ptr
      ≡ advance r.depth r.w_ptr (alloced - k)
write_cancel-reserve_multiple {r} n p alloced k v reached e pos le =
    let (s, f, room, claimed) =
      reserve_for_write_multiple-some (IsRefreshOf r) n (host r) (update_rptr-IsRefreshOf r)
        (IsSafe-IsRefreshOf r (Reach-IsSafe reached v)) (p, alloced) e in
    let (moved, fits, _, _, ahead) = claim_many_lem n s f.safe.bounds room in
    let count : (claim_many n s).0.1 ≡ alloced = cc in
    ap (λ t. t.w_ptr)
      (write_cancel_lem s (reserve_for_write_multiple (host r) n).1 alloced k f.safe.bounds
        (omega arith) (cc) pos le)
    ∙ ap₂ (λ d w. advance d w (alloced - k)) f.same_depth f.same_w
