-- ===== src/Msgbuf/Rx/Stretch.antt =====
-- msgbuf.c: one round of the reading of a completion ring whose callbacks are those of pcie.c, the
-- stretch of items up to the end of the buffer, or up to the device's write index.
use omdrop_awdl.Prelude.{
  ℕ, zero, suc, ◌+◌, ◌-◌, ◌*◌, ◌^◌, ◌≤◌, ◌<◌, ◌≡◌, ◌≢◌, refl, ap, ap₂, ◌∙◌, true, false, none, some,
  List, [], ◌∷◌, ◌++◌, map, ◌==◌, if◌then◌else◌, u16, arith, leb,
}
use native.Mathlib.Decide.{ℕ_discrete}
use omdrop_awdl.Commonring.{Commonring, get_read_ptr, read_complete}
use omdrop_awdl.Commonring.Space.{advance}
use omdrop_awdl.Pcie.{RingMailbox, DeviceRing, write_rptr, update_wptr}
use omdrop_awdl.Pcie.Sharing.{host}
use omdrop_awdl.Msgbuf.Rx.{read_items, flush, read_stretch}

-- `n` slots from slot `a` on, going round the end.
abbrev pub slots : ℕ → ℕ → ℕ → List ℕ
slots depth a zero = []
slots depth a (suc n) = a ∷ slots depth (advance depth a 1) n

-- `n` addresses `len` apart.
abbrev addresses : ℕ → ℕ → ℕ → List ℕ
addresses buf len zero = []
addresses buf len (suc n) = buf ∷ addresses (buf + len) len n

-- `k` items have been read and reported to the device.
abbrev pub moved : DeviceRing → ℕ → DeviceRing
moved r k =
    let r_ptr : ℕ = advance r.depth r.r_ptr k in
    record r { r_ptr = r_ptr; ctx = record (r.ctx) { r_idx = r_ptr } }

-- The items that can be read in one piece.
abbrev pub stretch : DeviceRing → ℕ
stretch r = if leb r.r_ptr r.ctx.w_idx then r.ctx.w_idx - r.r_ptr else r.depth - r.r_ptr

-- A completion ring that the host has read up to its read index, on a bus that is up.
pub record IsReadable (r : DeviceRing) : Type 0 where
  pub up : r.ctx.up ≡ true
  pub fits : r.depth < 2 ^ 16
  pub r_in : r.r_ptr < r.depth
  pub w_in : r.ctx.w_idx < r.depth
  pub reported : r.ctx.r_idx ≡ r.r_ptr

read_complete-moved :
    (r : DeviceRing) (k : ℕ)
    → IsReadable r
    → r.r_ptr + k ≤ r.depth
    → (read_complete (host r) k).1 ≡ host (moved r k)
unfolding read_complete write_rptr
read_complete-moved r k v h = ground arith

moved-zero : (r : DeviceRing) → IsReadable r → moved r 0 ≡ r
moved-zero r v = ground arith

advance-advance :
    (depth a j k : ℕ)
    → a < depth
    → a + (j + k) ≤ depth
    → advance depth (advance depth a j) k ≡ advance depth a (j + k)
advance-advance depth a j k h le = ground arith

advance_room : (depth a j k : ℕ) → a < depth → a + (j + k) ≤ depth → advance depth a j + k ≤ depth
advance_room depth a j k h le = ground arith

moved-moved :
    (r : DeviceRing) (j k : ℕ)
    → IsReadable r
    → r.r_ptr + (j + k) ≤ r.depth
    → moved (moved r j) k ≡ moved r (j + k)
moved-moved r j k v h =
    ap (λ q. record r { r_ptr = q; ctx = record (r.ctx) { r_idx = q } })
      (advance-advance r.depth r.r_ptr j k v.r_in h)

moved-IsReadable :
    (r : DeviceRing) (k : ℕ) → IsReadable r → r.r_ptr + k ≤ r.depth → IsReadable (moved r k)
moved-IsReadable r k v h = ground arith

flush-moved :
    (r : DeviceRing) (k : ℕ)
    → IsReadable r
    → r.r_ptr + k ≤ r.depth
    → flush k (host r) ≡ host (moved r k)
unfolding flush
flush-moved r k v h = ground (arith, read_complete-moved r k v h, moved-zero r v)

-- One round of the loop over a stretch of items, when the read pointer is reported and when not.
read_items-full :
    (off count buf : ℕ) (r : DeviceRing)
    → IsReadable r
    → r.r_ptr + 48 ≤ r.depth
    → let (seen, left, s) = read_items off count (buf + r.item_len) 0 (host (moved r 48)) in
      read_items off (suc count) buf 47 (host r) ≡ ((buf + off) ∷ seen, left, s)
unfolding read_items
read_items-full off count buf r v h = rw (read_complete-moved r 48 v h)

read_items-more :
    (off count buf processed : ℕ) (r : DeviceRing)
    → processed < 47
    → let (seen, left, s) = read_items off count (buf + r.item_len) (processed + 1) (host r) in
      read_items off (suc count) buf processed (host r) ≡ ((buf + off) ∷ seen, left, s)
unfolding read_items
read_items-more off count buf processed r h =
    let small : u16 (processed + 1) ≡ processed + 1 = omega arith in
    let below : (processed + 1 == 48) ≡ false = ground arith in rw (small, below)

-- What the loop over a stretch of `count` items does from `r`, once the rest is reported.
abbrev Reads : ℕ → ℕ → ℕ → List ℕ × ℕ × Commonring RingMailbox → DeviceRing → ℕ → Type 0
Reads off count buf (seen, left, s) r k =
    (seen ≡ map (λ b. b + off) (addresses buf r.item_len count)) × (flush left s ≡ host (moved r k))

read_items_lem :
    (off count buf processed : ℕ) (r : DeviceRing)
    → IsReadable r
    → processed < 48
    → r.r_ptr + (processed + count) ≤ r.depth
    → Reads off count buf (read_items off count buf processed (host r)) r (processed + count)
read_items_lem off zero buf processed r v p h =
    unfold read_items in
    (refl, flush-moved r processed v (omega arith) ∙ ap (λ k. host (moved r k)) (omega arith))
read_items_lem off (suc count) buf processed r v p h = elim (ℕ_discrete processed 47) [
  | yes e ↦
      let ih =
        read_items_lem off count (buf + r.item_len) 0 (moved r 48)
          (moved-IsReadable r 48 v (omega (arith, e))) (omega arith)
          (advance_room r.depth r.r_ptr 48 (0 + count) v.r_in (omega (arith, e))) in
      rw (e, read_items-full off count buf r v (omega (arith, e)))
        (
          ap (◌∷◌ (buf + off)) ih.0,
          ih.1
              ∙ ap (λ t. host t) (moved-moved r 48 (0 + count) v (omega (arith, e)))
              ∙ ap (λ k. host (moved r k)) (omega arith),
        )
  | no ne ↦
      let ih =
        read_items_lem off count (buf + r.item_len) (processed + 1) r v (omega arith)
          (omega arith) in
      rw (read_items-more off count buf processed r (omega arith))
        (ap (◌∷◌ (buf + off)) ih.0, ih.1 ∙ ap (λ k. host (moved r k)) (omega arith))
]

-- The addresses of a stretch that does not go round the end are those of its slots.
addresses-slots :
    (depth base len off a n : ℕ)
    → a + n ≤ depth
    → map (λ b. b + off) (addresses (base + a * len) len n)
      ≡ map (λ i. base + i * len + off) (slots depth a n)
addresses-slots depth base len off a zero h = refl
addresses-slots depth base len off a (suc zero) h = refl
addresses-slots depth base len off a (suc (suc n)) h =
    let step : advance depth a 1 ≡ a + 1 = ground arith in
    let further : base + a * len + len ≡ base + (a + 1) * len = omega arith in
    ap (◌∷◌ (base + a * len + off))
      (rw (step, further) (addresses-slots depth base len off (a + 1) (suc n) (omega arith)))

-- A stretch up to the end and one from the start make up the slots round the end.
pub slots-wrap :
    (depth n m a : ℕ)
    → a + suc n ≡ depth
    → slots depth a (suc n + m) ≡ slots depth a (suc n) ++ slots depth 0 m
slots-wrap depth zero m a h =
    let more : suc zero + m ≡ suc m = omega arith in
    let round : advance depth a 1 ≡ 0 = ground arith in
    ap (slots depth a) more ∙ ap (λ i. a ∷ slots depth i m) round
slots-wrap depth (suc n) m a h =
    let more : suc (suc n) + m ≡ suc (suc n + m) = omega arith in
    let step : advance depth a 1 ≡ a + 1 = ground arith in
    ap (slots depth a) more ∙ rw step (ap (◌∷◌ a) (slots-wrap depth n m (a + 1) (omega arith)))

pub get_read_ptr-empty :
    (r : DeviceRing)
    → IsReadable r
    → r.r_ptr ≡ r.ctx.w_idx
    → get_read_ptr (host r) ≡ (none, 0, host (record r { w_ptr = r.ctx.w_idx }))
unfolding get_read_ptr update_wptr
get_read_ptr-empty r v e = ground arith

pub get_read_ptr-stretch :
    (r : DeviceRing)
    → IsReadable r
    → r.r_ptr ≢ r.ctx.w_idx
    → get_read_ptr (host r) ≡ (
      some (r.buf_addr + r.r_ptr * r.item_len),
      stretch r,
      host (record r { w_ptr = r.ctx.w_idx }),
    )
unfolding get_read_ptr update_wptr
get_read_ptr-stretch r v ne = ground arith

-- The addresses that process_msgtype gets for `n` slots from slot `a` on.
abbrev pub item_addresses : ℕ → DeviceRing → ℕ → ℕ → List ℕ
item_addresses off r a n = map (λ i. r.buf_addr + i * r.item_len + off) (slots r.depth a n)

-- What one round reads, and the ring that it leaves.
pub read_stretch_lem :
    (off : ℕ) (r : DeviceRing)
    → IsReadable r
    → let r0 : DeviceRing = record r { w_ptr = r.ctx.w_idx } in
      read_stretch off (stretch r) (r.buf_addr + r.r_ptr * r.item_len) (host r0)
      ≡ (item_addresses off r r.r_ptr (stretch r), host (moved r0 (stretch r)))
unfolding read_stretch
read_stretch_lem off r v =
    let r0 : DeviceRing = record r { w_ptr = r.ctx.w_idx } in
    let fits : r.r_ptr + stretch r ≤ r.depth = ground arith in
    let v0 : IsReadable r0 = ground arith in
    let lem =
      read_items_lem off (stretch r) (r.buf_addr + r.r_ptr * r.item_len) 0 r0 v0 (omega arith)
        (omega arith) in
    ap₂ (λ a b. (a, b))
      (lem.0 ∙ addresses-slots r.depth r.buf_addr r.item_len off r.r_ptr (stretch r) fits)
      (lem.1 ∙ ap (λ k. host (moved r0 k)) (omega arith))
