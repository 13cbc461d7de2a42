-- ===== src/Tests/Flows.antt =====
-- The flow rings: flowring.c.
use omdrop_awdl.Prelude.{◌<◌, ◌≡◌, ◌≢◌, ℕ, refl, true, false, some, none, [], ◌∷◌, arith, bool_eq}
use omdrop_awdl.Flowring.{
  Mac, Skb, FlowRing, Flowring, ring_at, direct, is_open, opened, closed, is_indirect, set_ring,
  mac_eq, invalid_id,
}
use omdrop_awdl.Flowring.Table.{
  is_free, matches, attach, create, lookup, key, probe, first_null, add_ring, claim_entry, entry_id,
  is_tdls_mac,
}
use omdrop_awdl.Flowring.Flow.{enqueue, dequeue, delete, open_ring, open_slot, ifidx_of}
use omdrop_awdl.Flowring.Table.Linked.{IsLinked, attach-IsLinked}
use omdrop_awdl.Flowring.Table.Find.{entry, lookup-create, lookup-create_other}
use omdrop_awdl.Flowring.Flow.Stop.{IsAccountable, set_ring-IsAccountable, ring_at-some}
use omdrop_awdl.Flowring.Flow.Queues.{enqueue-IsAccountable, dequeue-IsAccountable}
use omdrop_awdl.Flowring.Flow.Removal.{delete-IsAccountable}
use omdrop_awdl.Flowring.Peers.{configure_addr_mode, delete_peer}
use omdrop_awdl.Flowring.Peers.Change.{configure_addr_mode_closes, delete_peer_closes}
use omdrop_awdl.Flowring.Life.{Reach, here, step, creating, opening, Reach-IsAccountable}

abbrev pub peer : Mac
peer = record { b0 = 2; b1 = 0; b2 = 0; b3 = 0; b4 = 0; b5 = 7 }

abbrev pub packet : Skb
packet = record { id = 41; h_dest = peer; h_source = peer; priority = 1 }

-- Two rings, the first of them for the peer on interface 1.
abbrev pub made : Flowring
made = (create true (attach 2) peer 1 1).1

abbrev pub ring : FlowRing
ring = record { hash_id = 17; blocked = false; status = closed; skblist = [] }

made_at : ring_at made 0 ≡ some ring
unfolding create attach claim_entry probe first_null add_ring key is_tdls_mac
made_at = refl

made_entry : (made.hash 17).ifidx ≡ 1
unfolding create attach claim_entry probe first_null add_ring key is_tdls_mac
made_entry = refl

made_reached : Reach (attach 2) made
made_reached = step here (creating true peer 1 1 (omega arith))

Reach-IsAccountable_example : IsAccountable made
Reach-IsAccountable_example = Reach-IsAccountable 2 made (omega arith) made_reached

pub made-IsAccountable : IsAccountable made
made-IsAccountable = Reach-IsAccountable 2 made (omega arith) made_reached

-- The ring opened.
abbrev pub ready : Flowring
ready = open_slot made 0 (some ring)

abbrev pub ready_ring : FlowRing
ready_ring = record ring { status = opened }

ready_at : ring_at ready 0 ≡ some ready_ring
unfolding create attach claim_entry probe first_null add_ring key is_tdls_mac open_slot
ready_at = refl

ready_opened : open_ring made 0 ≡ some ready
unfolding create attach claim_entry probe first_null add_ring key is_tdls_mac open_slot open_ring
ready_opened = refl

ready-IsAccountable : IsAccountable ready
ready-IsAccountable =
    Reach-IsAccountable 2 ready (omega arith) (step made_reached (opening 0 ready_opened))

enqueue-IsAccountable_example :
    (flow' : Flowring) × (enqueue ready 0 packet ≡ some (1, flow'))
    × IsAccountable flow'
    × (ring_at flow' 0 ≡ some (record ready_ring { skblist = packet ∷ [] }))
enqueue-IsAccountable_example =
    enqueue-IsAccountable ready 0 ready_ring packet ready_at ready-IsAccountable

-- A packet waits in the ring of the peer.
abbrev pub loaded_ring : FlowRing
loaded_ring = record ready_ring { skblist = packet ∷ [] }

abbrev pub loaded : Flowring
loaded = set_ring ready 0 loaded_ring

pub loaded_at : ring_at loaded 0 ≡ some loaded_ring
unfolding create attach claim_entry probe first_null add_ring key is_tdls_mac open_slot
loaded_at = refl

pub loaded-IsAccountable : IsAccountable loaded
loaded-IsAccountable =
    set_ring-IsAccountable ready 0 ready_ring (ring_at-some ready 0 ready_ring ready_at).1
      loaded_ring refl (λ b. b) ready-IsAccountable

dequeue-IsAccountable_example :
    (flow' : Flowring) × (dequeue loaded 0 ≡ some (some packet, flow'))
    × IsAccountable flow'
    × (ring_at flow' 0 ≡ some ready_ring)
dequeue-IsAccountable_example =
    dequeue-IsAccountable loaded 0 loaded_ring loaded_at refl loaded-IsAccountable

delete-IsAccountable_example :
    (flow' : Flowring) × (delete loaded 0 ≡ some flow')
    × IsAccountable flow'
    × (flow'.rings 0 ≡ none)
    × (is_free (flow'.hash 17) ≡ true)
    × ((j : ℕ) → 0 ≢ j → flow'.rings j ≡ loaded.rings j)
    × ((i : ℕ) → 17 ≢ i → flow'.hash i ≡ loaded.hash i)
    × (flow'.finalized ≡ packet ∷ loaded.finalized)
delete-IsAccountable_example =
    delete-IsAccountable loaded 0 loaded_ring loaded_at loaded-IsAccountable

still_indirect : bool_eq (is_indirect (loaded.addr_mode 1)) (is_indirect direct) ≡ false
unfolding create attach claim_entry probe first_null add_ring key is_tdls_mac open_slot
still_indirect = refl

configure_addr_mode_closes_example :
    (flow' : Flowring) × (configure_addr_mode (λ id. false) loaded 1 direct ≡ some flow')
    × IsAccountable flow'
    × (flow'.addr_mode 1 ≡ direct)
    × ((id : ℕ) (r : FlowRing)
        → id < flow'.nrofrings
        → flow'.rings id ≡ some r
        → ifidx_of flow' r ≡ 1
        → is_open r.status ≡ false)
configure_addr_mode_closes_example =
    configure_addr_mode_closes (λ id. false) loaded 1 direct loaded-IsAccountable (omega arith)
      still_indirect

delete_peer_closes_example :
    (flow' : Flowring) × (delete_peer (λ id. true) loaded 1 peer ≡ some flow')
    × IsAccountable flow'
    × ((id : ℕ) (r : FlowRing)
        → id < flow'.nrofrings
        → flow'.rings id ≡ some r
        → ifidx_of flow' r ≡ 1
        → mac_eq (flow'.hash r.hash_id).mac peer ≡ true
        → is_open r.status ≡ false)
delete_peer_closes_example =
    delete_peer_closes (λ id. true) loaded 1 peer loaded-IsAccountable (omega arith)

fresh-IsLinked : IsLinked (attach 2)
fresh-IsLinked = attach-IsLinked 2 (omega arith)

-- No ring yet.
nothing_found : lookup (attach 2) peer 1 1 ≡ invalid_id
unfolding lookup attach probe entry_id key is_tdls_mac
nothing_found = refl

made_in : (create true (attach 2) peer 1 1).0 < (attach 2).nrofrings
unfolding create attach claim_entry probe first_null add_ring key is_tdls_mac
made_in = omega arith

other_class :
    matches
      (key (attach 2) peer 4 1)
      (entry (key (attach 2) peer 1 1) (create true (attach 2) peer 1 1).0)
    ≡ false
unfolding key attach is_tdls_mac
other_class = refl

lookup-create_example : lookup made peer 1 1 ≡ (create true (attach 2) peer 1 1).0
lookup-create_example =
    lookup-create true (attach 2) peer 1 1 fresh-IsLinked (omega arith) nothing_found made_in

lookup-create_other_example : lookup made peer 4 1 ≡ lookup (attach 2) peer 4 1
lookup-create_other_example =
    lookup-create_other true (attach 2) peer 1 1 peer 4 1 fresh-IsLinked (omega arith) other_class
