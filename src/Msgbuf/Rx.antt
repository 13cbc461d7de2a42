-- ===== src/Msgbuf/Rx.antt =====
-- msgbuf.c: how the items of a completion ring are read.
pub mod Stretch
pub mod Drain
use omdrop_awdl.Prelude.{
  ℕ, zero, suc, ◌+◌, Bool, true, false, Option, none, some, List, [], ◌∷◌, ◌++◌, ◌==◌,
  if◌then◌else◌, u16,
}
use omdrop_awdl.Commonring.{Commonring, get_read_ptr, read_complete}

-- BRCMF_MSGBUF_UPDATE_RX_PTR_THRS
abbrev pub update_rx_ptr_thrs : ℕ
update_rx_ptr_thrs = 48

-- `if (processed) brcmf_commonring_read_complete(commonring, processed);`
pub flush : {C : Type 0} → ℕ → Commonring C → Commonring C
flush processed s = if processed == 0 then s else (read_complete s processed).1

module _ {C : Type 0} (rx_dataoffset : ℕ) where
  -- `while (count)`: the addresses that brcmf_msgbuf_process_msgtype is called with, `processed`
  -- at the end, and the ring. The handlers do not touch this ring.
  pub read_items : ℕ → ℕ → ℕ → Commonring C → List ℕ × ℕ × Commonring C
  read_items zero buf processed s = ([], processed, s)
  read_items (suc count) buf processed s =
      let p : ℕ = u16 (processed + 1) in
      let full : Bool = p == update_rx_ptr_thrs in
      let s' : Commonring C = if full then (read_complete s p).1 else s in
      let (seen, left, t) = read_items count (buf + s.item_len) (if full then 0 else p) s' in
      ((buf + rx_dataoffset) ∷ seen, left, t)

  -- The items that one call of get_read_ptr gives, and the ring once all are reported.
  pub read_stretch : ℕ → ℕ → Commonring C → List ℕ × Commonring C
  unfolding read_items
  read_stretch count buf s =
      let (seen, processed, t) = read_items count buf 0 s in (seen, flush processed t)

  -- `if (commonring->r_ptr == 0) goto again;`
  pub after_stretch :
      (Commonring C → Option (List ℕ × Commonring C))
      → List ℕ × Commonring C
      → Option (List ℕ × Commonring C)
  after_stretch again (seen, t) = elim (t.r_ptr == 0) [
    | true ↦ elim (again t) [ none ↦ none | some (rest, u) ↦ some (seen ++ rest, u) ]
    | false ↦ some (seen, t)
  ]

  pub process_round :
      (Commonring C → Option (List ℕ × Commonring C))
      → Option ℕ × ℕ × Commonring C
      → Option (List ℕ × Commonring C)
  unfolding after_stretch
  process_round again (none, count, s) = some ([], s)
  process_round again (some buf, count, s) = after_stretch again (read_stretch count buf s)

  -- The loop at `again`, on fuel.
  pub process_rx : ℕ → Commonring C → Option (List ℕ × Commonring C)
  process_rx zero s = none
  process_rx (suc fuel) s = process_round (process_rx fuel) (get_read_ptr s)
