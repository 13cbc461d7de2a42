-- ===== src/Msgbuf/Rx/Drain.antt =====
-- msgbuf.c: reading a completion ring whose callbacks are those of pcie.c.
use omdrop_awdl.Prelude.{
  ℕ, suc, ◌+◌, ◌-◌, ◌*◌, ◌<◌, ◌≡◌, ◌≢◌, ap, ap₂, ◌∙◌, sym, true, Option, some, List, [], ◌++◌, map,
  ◌==◌, arith,
}
use native.Mathlib.Decide.{ℕ_discrete, dec_lt}
use mathlib.Core.List.{map-append}
use omdrop_awdl.Commonring.{Commonring}
use omdrop_awdl.Commonring.Space.{gap}
use omdrop_awdl.Pcie.{RingMailbox, DeviceRing}
use omdrop_awdl.Pcie.Sharing.{host}
use omdrop_awdl.Msgbuf.Rx.{after_stretch, process_round, process_rx}
use omdrop_awdl.Msgbuf.Rx.Stretch.{
  slots, slots-wrap, moved, stretch, IsReadable, item_addresses, get_read_ptr-empty,
  get_read_ptr-stretch, read_stretch_lem,
}

-- The ring as `process_rx` leaves it.
abbrev drained : DeviceRing → DeviceRing
drained r = record r {
  r_ptr = r.ctx.w_idx;
  w_ptr = r.ctx.w_idx;
  ctx = record (r.ctx) { r_idx = r.ctx.w_idx };
}

-- A round on an empty ring; one on a ring with a stretch that ends where the published items do;
-- and one on a ring with a stretch that ends at the end of the buffer.
process_rx-empty :
    (off fuel : ℕ) (r : DeviceRing)
    → IsReadable r
    → r.r_ptr ≡ r.ctx.w_idx
    → process_rx off (suc fuel) (host r) ≡ some ([], host (drained r))
unfolding process_rx process_round
process_rx-empty off fuel r v e =
    let same : host (record r { w_ptr = r.ctx.w_idx }) ≡ host (drained r) = ground arith in
    ap (process_round off (process_rx off fuel)) (get_read_ptr-empty r v e)
    ∙ ap (λ s. some ([], s)) same

process_rx-stretch :
    (off fuel : ℕ) (r : DeviceRing)
    → IsReadable r
    → r.r_ptr ≢ r.ctx.w_idx
    → process_rx off (suc fuel) (host r)
      ≡ after_stretch off (process_rx off fuel) (
        item_addresses off r r.r_ptr (stretch r),
        host (moved (record r { w_ptr = r.ctx.w_idx }) (stretch r)),
      )
unfolding process_rx process_round
process_rx-stretch off fuel r v ne =
    ap (process_round off (process_rx off fuel)) (get_read_ptr-stretch r v ne)
    ∙ ap (after_stretch off (process_rx off fuel)) (read_stretch_lem off r v)

after_stretch-stop :
    (off : ℕ) (again : Commonring RingMailbox → Option (List ℕ × Commonring RingMailbox))
    (seen : List ℕ) (t : DeviceRing)
    → t.r_ptr ≢ 0
    → after_stretch off again (seen, host t) ≡ some (seen, host t)
unfolding after_stretch
after_stretch-stop off again seen t h = ground arith

after_stretch-again :
    (off : ℕ) (again : Commonring RingMailbox → Option (List ℕ × Commonring RingMailbox))
    (seen rest : List ℕ) (t : DeviceRing) (u : Commonring RingMailbox)
    → t.r_ptr ≡ 0
    → again (host t) ≡ some (rest, u)
    → after_stretch off again (seen, host t) ≡ some (seen ++ rest, u)
unfolding after_stretch
after_stretch-again off again seen rest t u start e =
    let at_start : (t.r_ptr == 0) ≡ true = ground arith in rw (at_start, after_stretch) (rw e)

process_rx-ahead :
    (off fuel : ℕ) (r : DeviceRing)
    → IsReadable r
    → r.r_ptr < r.ctx.w_idx
    → process_rx off (suc fuel) (host r)
      ≡ some (item_addresses off r r.r_ptr (gap r.depth r.r_ptr r.ctx.w_idx), host (drained r))
process_rx-ahead off fuel r v h =
    let size : stretch r ≡ gap r.depth r.r_ptr r.ctx.w_idx = ground arith in
    let end : moved (record r { w_ptr = r.ctx.w_idx }) (stretch r) ≡ drained r = ground arith in
    process_rx-stretch off fuel r v (omega arith)
    ∙ ap₂ (λ n t. after_stretch off (process_rx off fuel) (item_addresses off r r.r_ptr n, host t))
        size end
    ∙ after_stretch-stop off (process_rx off fuel) _ (drained r) (omega arith)

process_rx-rest :
    (off fuel : ℕ) (r : DeviceRing)
    → IsReadable r
    → r.r_ptr ≡ 0
    → process_rx off (suc fuel) (host r)
      ≡ some (item_addresses off r 0 r.ctx.w_idx, host (drained r))
process_rx-rest off fuel r v e = elim (ℕ_discrete r.ctx.w_idx 0) [
  | yes none_left ↦
      process_rx-empty off fuel r v (omega arith)
      ∙ ap (λ n. some (item_addresses off r 0 n, host (drained r))) (sym none_left)
  | no some_left ↦
      let all : gap r.depth r.r_ptr r.ctx.w_idx ≡ r.ctx.w_idx = ground arith in
      process_rx-ahead off fuel r v (omega arith)
      ∙ ap₂ (λ a n. some (item_addresses off r a n, host (drained r))) e all
]

item_addresses-wrap :
    (off : ℕ) (r : DeviceRing) (n m : ℕ)
    → r.r_ptr + suc n ≡ r.depth
    → item_addresses off r r.r_ptr (suc n + m)
      ≡ item_addresses off r r.r_ptr (suc n) ++ item_addresses off r 0 m
item_addresses-wrap off r n m h =
    let address : ℕ → ℕ = λ i. r.buf_addr + i * r.item_len + off in
    ap (map address) (slots-wrap r.depth n m r.r_ptr h)
    ∙ map-append {0, 0} {A = ℕ} {B = ℕ} address (slots r.depth r.r_ptr (suc n)) (slots r.depth 0 m)

process_rx-behind :
    (off fuel : ℕ) (r : DeviceRing)
    → IsReadable r
    → r.ctx.w_idx < r.r_ptr
    → process_rx off (suc (suc fuel)) (host r)
      ≡ some (item_addresses off r r.r_ptr (gap r.depth r.r_ptr r.ctx.w_idx), host (drained r))
process_rx-behind off fuel r v h =
    let t : DeviceRing = moved (record r { w_ptr = r.ctx.w_idx }) (stretch r) in
    let size : stretch r ≡ suc (r.depth - r.r_ptr - 1) = ground arith in
    let start : t.r_ptr ≡ 0 = ground arith in
    let vt : IsReadable t = ground arith in
    let all : gap r.depth r.r_ptr r.ctx.w_idx ≡ suc (r.depth - r.r_ptr - 1) + r.ctx.w_idx =
      ground arith in
    process_rx-stretch off (suc fuel) r v (omega arith)
    ∙ after_stretch-again off (process_rx off (suc fuel)) (item_addresses off r r.r_ptr (stretch r))
        (item_addresses off r 0 r.ctx.w_idx) t (host (drained r)) start
        (process_rx-rest off fuel t vt start)
    ∙ ap
        (λ n.
          some (
            item_addresses off r r.r_ptr n ++ item_addresses off r 0 r.ctx.w_idx,
            host (drained r),
          ))
        size
    ∙ ap (λ l. some (l, host (drained r)))
        (sym (item_addresses-wrap off r (r.depth - r.r_ptr - 1) r.ctx.w_idx (omega arith)))
    ∙ ap (λ n. some (item_addresses off r r.r_ptr n, host (drained r))) (sym all)

-- On a bus that is up, and with the read index reported to the device, the loop of process_rx ends
-- after at most two rounds, having processed each published item exactly once, in ring order from
-- the read pointer on, and leaves the ring empty with its read index reported.
pub process_rx_drains :
    (off fuel : ℕ) (r : DeviceRing)
    → IsReadable r
    → process_rx off (suc (suc fuel)) (host r)
      ≡ some (item_addresses off r r.r_ptr (gap r.depth r.r_ptr r.ctx.w_idx), host (drained r))
process_rx_drains off fuel r v = elim (ℕ_discrete r.r_ptr r.ctx.w_idx) [
  | yes e ↦
      let none_left : gap r.depth r.r_ptr r.ctx.w_idx ≡ 0 = ground arith in
      process_rx-empty off (suc fuel) r v e
      ∙ ap (λ n. some (item_addresses off r r.r_ptr n, host (drained r))) (sym none_left)
  | no ne ↦ elim (dec_lt r.r_ptr r.ctx.w_idx) [
    | yes ahead ↦ process_rx-ahead off (suc fuel) r v ahead
    | no behind ↦ process_rx-behind off fuel r v (omega arith)
  ]
]
