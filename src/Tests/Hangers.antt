-- ===== src/Tests/Hangers.antt =====
-- The hanger of fwsignal.c.
use omdrop_awdl.Prelude.{◌+◌, ◌<◌, ◌≡◌, refl, arith, u32}
use omdrop_awdl.Fwsignal.Hanger.{
  Hanger, hanger_init, get_free_slot, pushpkt, search, found_slot, maxitems,
}
use omdrop_awdl.Fwsignal.Hanger.Search.{IsSlot, get_free_slot-IsSlot}
use omdrop_awdl.Fwsignal.Hanger.Count.{here, step, finds, pushes, waiting, Reach-IsCounted}

-- Packet 5 in the first slot that is offered.
abbrev holding : Hanger
holding = (pushpkt (get_free_slot hanger_init).1 5 1).1

first_offer : (get_free_slot hanger_init).0 ≡ 1
unfolding get_free_slot hanger_init search found_slot
first_offer = refl

last_in : holding.slot_pos < maxitems
unfolding pushpkt get_free_slot hanger_init search found_slot
last_in = omega arith

get_free_slot-IsSlot_example : IsSlot holding 6 (get_free_slot holding)
get_free_slot-IsSlot_example = get_free_slot-IsSlot holding 6 last_in

Reach-IsCounted_example : holding.pushed ≡ u32 (holding.popped + waiting holding.items maxitems)
Reach-IsCounted_example = Reach-IsCounted holding (step (step here finds) (pushes 5 1))
