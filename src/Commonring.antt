-- ===== src/Commonring.antt =====
-- commonring.c: the ring of fixed-size items that the host and the device share.
-- The spinlock is not modelled: each operation runs as a whole.
pub mod Space
use omdrop_awdl.Prelude.{
  ℕ, zero, suc, ◌+◌, ◌-◌, ◌*◌, ◌/◌, ◌%◌, ◌^◌, min, Bool, true, false, not, Option, none, some, ltb,
  leb, ◌==◌, if◌then◌else◌, u16, sub16, Status, eio,
}

-- The data of `struct brcmf_commonring`; `ctx` is the object that `cr_ctx` points to.
pub record Ring (C : Type 0) : Type 0 where
  pub r_ptr : ℕ
  pub w_ptr : ℕ
  pub f_ptr : ℕ
  pub depth : ℕ
  pub item_len : ℕ
  pub buf_addr : ℕ
  pub inited : Bool
  pub was_full : Bool
  pub ctx : C

-- A callback reads and writes the ring that contains it, and the object of its context.
abbrev pub Callback : Type 0 → Type 0
Callback C = Ring C → Status × Ring C

-- The function pointers, each of which may be NULL.
pub record Callbacks (C : Type 0) : Type 0 where
  pub cr_ring_bell : Option (Callback C)
  pub cr_update_rptr : Option (Callback C)
  pub cr_update_wptr : Option (Callback C)
  pub cr_write_rptr : Option (Callback C)
  pub cr_write_wptr : Option (Callback C)

pub record Commonring (C : Type 0) : Type 0 where
  pub ring : Ring C
  pub open ring use *
  pub calls : Callbacks C
  pub open calls use *

module _ {C : Type 0} where
  -- `if (cr) cr(ctx);`
  abbrev pub invoke : Option (Callback C) → Ring C → Ring C
  invoke none r = r
  invoke (some f) r = (f r).1

  -- `if (cr) return cr(ctx); return -EIO;`
  abbrev pub invoke_or_eio : Option (Callback C) → Ring C → Status × Ring C
  invoke_or_eio none r = (eio, r)
  invoke_or_eio (some f) r = f r

  unfoldable pub register_cb : Commonring C → Callbacks C → C → Commonring C
  register_cb s calls ctx = record { ring = record (s.ring) { ctx = ctx }; calls = calls }

  unfoldable pub config : Commonring C → ℕ → ℕ → ℕ → Commonring C
  config s depth item_len buf_addr =
      let r : Ring C = record (s.ring) {
        depth = depth;
        item_len = item_len;
        buf_addr = buf_addr;
        inited = true;
        r_ptr = 0;
      } in
      let r1 : Ring C = invoke s.cr_write_rptr r in
      let r2 : Ring C = invoke s.cr_write_wptr (record r1 { w_ptr = 0 }) in
      record { ring = record r2 { f_ptr = 0 }; calls = s.calls }

  -- The slots that the producer takes for free, a `u16`.
  unfoldable pub available : Ring C → ℕ
  available r =
      if leb r.r_ptr r.w_ptr
      then u16 (r.depth + 2 ^ 16 - r.w_ptr + r.r_ptr)
      else sub16 r.r_ptr r.w_ptr

  abbrev refresh : Commonring C → Commonring C
  refresh s = record { ring = invoke s.cr_update_rptr s.ring; calls = s.calls }

  abbrev mark_full : Bool → Commonring C → Commonring C
  mark_full full s = record { ring = record (s.ring) { was_full = full }; calls = s.calls }

  -- One round of the loop at `again`, with the number of retries left.
  unfoldable pub available_round : ℕ → Commonring C → Bool × Commonring C
  unfolding available
  available_round zero s =
      if ltb 1 (available s.ring)
      then (if not s.was_full
          then (true, s)
          else if ltb (s.depth / 8) (available s.ring)
          then (true, mark_full false s)
          else (false, s))
      else (false, mark_full true s)
  available_round (suc retry) s =
      let again : Bool × Commonring C = available_round retry (refresh s) in
      if ltb 1 (available s.ring)
      then (if not s.was_full
          then (true, s)
          else if ltb (s.depth / 8) (available s.ring)
          then (true, mark_full false s)
          else again)
      else again

  unfoldable pub write_available : Commonring C → Bool × Commonring C
  unfolding available_round
  write_available s = available_round 1 s

  -- `w_ptr` moves past one slot, whose address is returned.
  unfoldable pub claim_one : Ring C → ℕ × Ring C
  claim_one r =
      let w : ℕ = u16 (r.w_ptr + 1) in
      (r.buf_addr + r.w_ptr * r.item_len, record r { w_ptr = if w == r.depth then 0 else w })

  -- `w_ptr` moves past up to `n_items` slots, which do not go round the end; the address of the
  -- first and their number are returned.
  unfoldable pub claim_many : ℕ → Ring C → (ℕ × ℕ) × Ring C
  unfolding available
  claim_many n_items r =
      let wanted : ℕ = min n_items (available r - 1) in
      let alloced : ℕ = if ltb r.depth (wanted + r.w_ptr) then sub16 r.depth r.w_ptr else wanted in
      let w : ℕ = u16 (r.w_ptr + alloced) in
      (
        (r.buf_addr + r.w_ptr * r.item_len, alloced),
        record r { w_ptr = if w == r.depth then 0 else w },
      )

  -- The loop of both reservations: claim if more than one slot is free, refresh `r_ptr` once
  -- if not, and give up with `was_full` set.
  unfoldable pub reserve_round :
      {A : Type 0} → (Ring C → A × Ring C) → ℕ → Commonring C → Option A × Commonring C
  unfolding available
  reserve_round {A} claim zero s =
      let done : A × Ring C = claim s.ring in
      if ltb 1 (available s.ring)
      then (some done.0, record { ring = done.1; calls = s.calls })
      else (none, mark_full true s)
  reserve_round {A} claim (suc retry) s =
      let done : A × Ring C = claim s.ring in
      let again : Option A × Commonring C = reserve_round claim retry (refresh s) in
      if ltb 1 (available s.ring)
      then (some done.0, record { ring = done.1; calls = s.calls })
      else again

  unfoldable pub reserve_for_write : Commonring C → Option ℕ × Commonring C
  unfolding reserve_round claim_one
  reserve_for_write s = reserve_round claim_one 1 s

  unfoldable pub reserve_for_write_multiple : Commonring C → ℕ → Option (ℕ × ℕ) × Commonring C
  unfolding reserve_round claim_many
  reserve_for_write_multiple s n_items = reserve_round (claim_many n_items) 1 s

  unfoldable pub write_complete : Commonring C → Status × Commonring C
  write_complete s =
      let f : ℕ = if ltb s.w_ptr s.f_ptr then 0 else s.f_ptr in
      let r : Ring C = record (record (s.ring) { f_ptr = f }) { f_ptr = s.w_ptr } in
      let (status, r') = invoke_or_eio s.cr_ring_bell (invoke s.cr_write_wptr r) in
      (status, record { ring = r'; calls = s.calls })

  unfoldable pub write_cancel : Commonring C → ℕ → Commonring C
  write_cancel s n_items = record {
    ring = record (s.ring) {
      w_ptr = if s.w_ptr == 0 then sub16 s.depth n_items else sub16 s.w_ptr n_items;
    };
    calls = s.calls;
  }

  -- The address of the first item to read, if there is one, and the number of items.
  unfoldable pub get_read_ptr : Commonring C → Option ℕ × ℕ × Commonring C
  get_read_ptr s =
      let r : Ring C = invoke s.cr_update_wptr s.ring in
      let n_items : ℕ =
        if leb r.r_ptr r.w_ptr then sub16 r.w_ptr r.r_ptr else sub16 r.depth r.r_ptr in
      (
        (if n_items == 0 then none else some (r.buf_addr + r.r_ptr * r.item_len)),
        n_items,
        record { ring = r; calls = s.calls },
      )

  unfoldable pub read_complete : Commonring C → ℕ → Status × Commonring C
  read_complete s n_items =
      let r_ptr : ℕ = u16 (s.r_ptr + n_items) in
      let r : Ring C = record (s.ring) { r_ptr = if r_ptr == s.depth then 0 else r_ptr } in
      let (status, r') = invoke_or_eio s.cr_write_rptr r in
      (status, record { ring = r'; calls = s.calls })
