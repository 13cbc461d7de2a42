-- ===== src/Fwsignal/Reorder.antt =====
-- fwsignal.c: the packets of an AMPDU, which the host puts back in order.
pub mod Window
pub mod Held
pub mod Taking
pub mod Handling
pub mod Safety
use omdrop_awdl.Prelude.{
  ℕ, zero, suc, ◌+◌, ◌%◌, ◌/◌, ◌^◌, Bool, true, false, not, ◌&&◌, Option, none, some, List, [], ◌∷◌,
  ◌++◌, ◌==◌, ltb, length, update, u8, sub8, if◌then◌else◌, ◌>>=◌,
}

-- `struct brcmf_ampdu_rx_reorder`, whose `flow_id` is not used, with the number of the slots that
-- were allocated. A packet is the number of its buffer.
pub record ReorderInfo : Type 0 where
  pub cur_idx : ℕ
  pub exp_idx : ℕ
  pub max_idx : ℕ
  pub pend_pkts : ℕ
  pub pktslots : ℕ → Option ℕ
  pub slots : ℕ

-- The bytes 0, 2, 4, 6 and 8 of the reorder data of a packet.
pub record ReorderData : Type 0 where
  pub flow_id : ℕ
  pub max_idx : ℕ
  pub flags : ℕ
  pub cur_idx : ℕ
  pub exp_idx : ℕ

-- `reorder_flows`, the packets handed to brcmf_netif_rx and those freed, in order.
pub record Reorder : Type 0 where
  pub flows : ℕ → Option ReorderInfo
  pub rx : List ℕ
  pub freed : List ℕ

-- `pktslots[i]`, where that lies in the array.
abbrev pub slot_at : ReorderInfo → ℕ → Option (Option ℕ)
slot_at rfi i = if ltb i rfi.slots then some (rfi.pktslots i) else none

-- The packet of a slot, if it holds one.
abbrev pub slot_pkts : Option ℕ → List ℕ
slot_pkts none = []
slot_pkts (some pkt) = pkt ∷ []

-- `start++; if (start > rfi->max_idx) start = 0;`
abbrev pub next_idx : ℕ → ℕ → ℕ
next_idx max_idx start = if ltb max_idx (u8 (start + 1)) then 0 else u8 (start + 1)

-- The loop of get_skb_list, at most `rounds` times. `none` is an access outside the array, or the
-- end of the rounds.
unfoldable pub collect : ℕ → ReorderInfo → ℕ → ℕ → Option (List ℕ × ReorderInfo)
collect zero rfi start end = none
collect (suc rounds) rfi start end = do
  slot ← slot_at rfi start
  let rfi1 : ReorderInfo = record rfi { pktslots = update rfi.pktslots start none }
  let next = next_idx rfi.max_idx start
  let rest = collect rounds rfi1 next end
  (pkts, rfi2) ← if next == end then some ([], rfi1) else rest
  some (slot_pkts slot ++ pkts, rfi2)

-- `start` takes at most 256 values before it repeats: a loop that goes on for longer does not end.
unfoldable pub get_skb_list : ReorderInfo → ℕ → ℕ → Option (List ℕ × ReorderInfo)
get_skb_list rfi start end = if rfi.pend_pkts == 0 then some ([], rfi) else do
  (pkts, rfi1) ← collect 256 rfi start end
  some (pkts, record rfi1 { pend_pkts = sub8 rfi1.pend_pkts (u8 (length pkts)) })

-- BRCMF_RXREORDER_DEL_FLOW, FLUSH_ALL, CURIDX_VALID and NEW_HOLE
abbrev pub is_del_flow : ℕ → Bool
is_del_flow flags = flags % 2 == 1

abbrev pub is_flush_all : ℕ → Bool
is_flush_all flags = flags / 2 % 2 == 1

abbrev pub is_curidx_valid : ℕ → Bool
is_curidx_valid flags = flags / 4 % 2 == 1

abbrev pub is_new_hole : ℕ → Bool
is_new_hole flags = flags / 16 % 2 == 1

-- `rfi->pktslots[i] = pkt; rfi->pend_pkts++;`
unfoldable pub store : ReorderInfo → ℕ → ℕ → Option ReorderInfo
store rfi i pkt = do
  slot ← slot_at rfi i
  some (record rfi {
    pktslots = update rfi.pktslots i (some pkt);
    pend_pkts = u8 (rfi.pend_pkts + 1);
  })

-- The result of a packet: the packets to deliver, those that were freed, and the flow.
abbrev pub Handled : Type 0
Handled = Option (List ℕ × (List ℕ × ReorderInfo))

unfoldable pub new_hole : ReorderInfo → ReorderData → ℕ → Handled
new_hole rfi d pkt = do
  (pkts, rfi1) ←
      if rfi.pend_pkts == 0 then some ([], rfi) else get_skb_list rfi rfi.exp_idx rfi.exp_idx
  rfi2 ←
      store (record rfi1 { cur_idx = d.cur_idx; exp_idx = d.exp_idx; max_idx = d.max_idx })
        d.cur_idx pkt
  some (pkts, ([], rfi2))

-- Still in the current hole: the packet that the slot holds, if any, is freed.
unfoldable pub fill_hole : ReorderInfo → ReorderData → ℕ → Handled
fill_hole rfi d pkt = do
  old ← slot_at rfi d.cur_idx
  rfi1 ← store rfi d.cur_idx pkt
  some ([], (slot_pkts old, record rfi1 { cur_idx = d.cur_idx }))

-- The expected packet.
unfoldable pub take_expected : ReorderInfo → ReorderData → ℕ → Handled
take_expected rfi d pkt = do
  old ← slot_at rfi d.cur_idx
  rfi1 ← store rfi d.cur_idx pkt
  (pkts, rfi2) ←
      get_skb_list (record rfi1 { cur_idx = d.cur_idx; exp_idx = d.exp_idx }) d.cur_idx d.exp_idx
  some (pkts, (slot_pkts old, rfi2))

abbrev pub end_of : ReorderInfo → ReorderData → ℕ
end_of rfi d = if is_flush_all d.flags then rfi.exp_idx else d.exp_idx

-- Both indices have moved.
unfoldable pub move_both : ReorderInfo → ReorderData → ℕ → Handled
move_both rfi d pkt = do
  (pkts, rfi1) ← get_skb_list rfi rfi.exp_idx (end_of rfi d)
  let in_order : Bool = d.exp_idx == (d.cur_idx + 1) % (rfi1.max_idx + 1)
  rfi2 ← if in_order then some rfi1 else store rfi1 d.cur_idx pkt
  some (
    pkts ++ (if in_order then pkt ∷ [] else []),
    ([], record rfi2 { exp_idx = d.exp_idx; cur_idx = d.cur_idx }),
  )

-- The window moves.
unfoldable pub move_window : ReorderInfo → ReorderData → ℕ → Handled
move_window rfi d pkt = do
  (pkts, rfi1) ← get_skb_list rfi rfi.exp_idx (end_of rfi d)
  some (pkts ++ (pkt ∷ []), ([], record rfi1 { exp_idx = d.exp_idx }))

unfoldable pub handle : ReorderInfo → ReorderData → ℕ → Handled
handle rfi d pkt =
    if is_new_hole d.flags
    then new_hole rfi d pkt
    else if not (is_curidx_valid d.flags)
    then move_window rfi d pkt
    else if (d.exp_idx == rfi.exp_idx) && not (d.cur_idx == rfi.exp_idx)
    then fill_hole rfi d pkt
    else if rfi.exp_idx == d.cur_idx
    then take_expected rfi d pkt
    else move_both rfi d pkt

-- brcmf_netif_rx for each packet.
abbrev pub deliver : Reorder → List ℕ → Reorder
deliver s pkts = record s { rx = s.rx ++ pkts }

unfoldable pub use_flow : Reorder → ReorderInfo → ReorderData → ℕ → Option Reorder
use_flow s rfi d pkt = do
  (pkts, (frees, rfi1)) ← handle rfi d pkt
  some (record s {
    flows = update s.flows d.flow_id (some rfi1);
    rx = s.rx ++ pkts;
    freed = s.freed ++ frees;
  })

unfoldable pub delete_flow : Reorder → Option ReorderInfo → ReorderData → ℕ → Option Reorder
delete_flow s none d pkt = some (deliver s (pkt ∷ []))
delete_flow s (some rfi) d pkt = do
  (pkts, rfi1) ← get_skb_list rfi rfi.exp_idx rfi.exp_idx
  some (deliver (record s { flows = update s.flows d.flow_id none }) (pkts ++ (pkt ∷ [])))

abbrev pub new_flow : ℕ → ReorderInfo
new_flow max_idx = record {
  cur_idx = 0;
  exp_idx = 0;
  max_idx = max_idx;
  pend_pkts = 0;
  pktslots = λ i. none;
  slots = max_idx + 1;
}

-- `kzalloc` says whether a new flow can be allocated.
unfoldable pub find_flow : Bool → Reorder → Option ReorderInfo → ReorderData → ℕ → Option Reorder
find_flow kzalloc s (some rfi) d pkt = use_flow s rfi d pkt
find_flow kzalloc s none d pkt =
    if kzalloc then use_flow s (new_flow d.max_idx) d pkt else some (deliver s (pkt ∷ []))

unfoldable pub rxreorder : Bool → Reorder → ReorderData → ℕ → Option Reorder
rxreorder kzalloc s d pkt =
    if d.flags == 0xff
    then some (deliver s (pkt ∷ []))
    else if is_del_flow d.flags
    then delete_flow s (s.flows d.flow_id) d pkt
    else find_flow kzalloc s (s.flows d.flow_id) d pkt
