-- ===== src/Tests/Reordering.antt =====
-- The packets of an AMPDU: fwsignal.c.
use mathlib.Core.Option.{some-injective}
use omdrop_awdl.Prelude.{
  Bool-cases, inl, inr, ◌==◌, ℕ, ◌≤◌, ◌≡◌, refl, true, Option, some, none, List, [], ◌∷◌, arith,
  update, ◌>>=◌, sub8, u8, if◌then◌else◌, length,
}
use omdrop_awdl.Fwsignal.Reorder.{
  ReorderInfo, ReorderData, Reorder, rxreorder, find_flow, use_flow, handle, take_expected,
  new_hole, fill_hole, store, get_skb_list, collect,
}
use omdrop_awdl.Fwsignal.Reorder.Held.{window, in_window, get_skb_list-window}
use omdrop_awdl.Fwsignal.Reorder.Window.{Slots}
use omdrop_awdl.Fwsignal.Reorder.Taking.{IsFlow}
use omdrop_awdl.Fwsignal.Reorder.Handling.{IsSane}
use omdrop_awdl.Fwsignal.Reorder.Safety.{AllFlows, Reordered, rxreorder-Reordered}

-- Four slots: packet 0 is expected, and packets 1 and 2 wait.
abbrev hole : ReorderInfo
hole = record {
  cur_idx = 2;
  exp_idx = 0;
  max_idx = 3;
  pend_pkts = 2;
  pktslots = update (update (λ i. none) 1 (some 11)) 2 (some 12);
  slots = 4;
}

hole-IsFlow : IsFlow hole
hole-IsFlow = record {
  sized = record { sized = refl; byte = omega arith };
  exp_in = omega arith;
  counted = omega arith;
  low = omega arith;
}

abbrev table : Reorder
table = record { flows = update (λ i. none) 7 (some hole); rx = []; freed = [] }

table-AllFlows : AllFlows table
table-AllFlows id rfi e = elim (Bool-cases (7 == id)) [
  | inl same ↦ rw (some-injective hole rfi (ground arith)) at hole-IsFlow
  | inr other ↦ absurd (ground arith)
]

-- The expected packet, after which packet 3 is expected.
abbrev expected : ReorderData
expected = record { flow_id = 7; max_idx = 3; flags = 4; cur_idx = 0; exp_idx = 3 }

abbrev delivered : Option Reorder → Option (List ℕ)
delivered o = do s ← o; some s.rx

expected_run : delivered (rxreorder true table expected 10) ≡ some (10 ∷ 11 ∷ 12 ∷ [])
unfolding rxreorder find_flow use_flow handle take_expected store get_skb_list collect
expected_run = refl

-- The firmware announces a larger window for a flow that has four slots, and names slot 100.
abbrev grown : ReorderData
grown = record { flow_id = 7; max_idx = 200; flags = 16; cur_idx = 100; exp_idx = 99 }

grown_run : rxreorder true table grown 10 ≡ none
unfolding rxreorder find_flow use_flow handle new_hole store get_skb_list collect
grown_run = refl

-- A packet that falls in the slot of another is counted, and the packet that it replaces as well.
abbrev again : ReorderData
again = record { flow_id = 7; max_idx = 3; flags = 4; cur_idx = 2; exp_idx = 0 }

abbrev pending : Option Reorder → Option ℕ
pending o = do s ← o; rfi ← s.flows 7; some rfi.pend_pkts

again_run : pending (rxreorder true table again 13) ≡ some 3
unfolding rxreorder find_flow use_flow handle fill_hole store
again_run = refl

get_skb_list-window_example :
    (left : Slots) × (get_skb_list hole 1 0
      ≡ some (
        window hole 1 0,
        record hole { pktslots = left; pend_pkts = sub8 2 (u8 (length (window hole 1 0))) },
      ))
    × ((i : ℕ) → i ≤ 3 → left i ≡ (if in_window 1 0 i then none else hole.pktslots i))
get_skb_list-window_example =
    get_skb_list-window hole 1 0 hole-IsFlow.sized (omega arith) (omega arith) (omega arith)

expected-IsSane : IsSane hole expected
expected-IsSane = record {
  cur_in = omega arith;
  exp_in = omega arith;
  same_max = λ h. refl;
  room = omega arith;
}

rxreorder-Reordered_example :
    (s' : Reorder) × (rxreorder true table expected 10 ≡ some s') × Reordered table expected 10 s'
rxreorder-Reordered_example =
    rxreorder-Reordered table expected 10 table-AllFlows true (omega arith) expected-IsSane
