-- ===== src/Tests/Peering.antt =====
-- The descriptors of peers of fwsignal.c.
use omdrop_awdl.Prelude.{◌%◌, ◌==◌, ◌≡◌, refl, false, [], ◌∷◌, arith}
use omdrop_awdl.Flowring.{Mac, zero_mac, allffmac}
use omdrop_awdl.Fwsignal.Hanger.{hanger_init}
use omdrop_awdl.Fwsignal.Signals.{macdesc_add, macdesc_del}
use omdrop_awdl.Fwsignal.Macdesc.{
  Macdesc, Descriptors, state_close, table_size, macdesc_init, macdesc_deinit, macdesc_lookup,
  add_node, macdesc_indicate,
}
use omdrop_awdl.Fwsignal.Macdesc.Unique.{IsUnique}
use omdrop_awdl.Fwsignal.Macdesc.Told.{Added, macdesc_indicate-IsUnique}

abbrev peer_mac : Mac
peer_mac = record allffmac { b0 = 2 }

abbrev blank : Macdesc
blank = record {
  occupied = false;
  mac_handle = 0;
  interface_id = 0;
  state = state_close;
  suppressed = false;
  generation = 0;
  ac_bitmap = 0;
  requested_credit = 0;
  requested_packet = 0;
  ea = zero_mac;
  seq = λ i. 0;
  psq = [];
}

-- The peer has slot 1, and a packet waits for it.
abbrev known : Descriptors
known = record {
  nodes = λ i. record blank {
    occupied = i == 1;
    mac_handle = 1;
    ea = peer_mac;
    psq = record { skb = 90; hslot = 7 } ∷ [];
  };
  hanger = hanger_init;
  mac_update_failed = 0;
  freed = [];
}

known-IsUnique : IsUnique known.nodes
known-IsUnique addr i j i_in j_in v w = ground (arith, v.0, w.0)

macdesc_indicate-IsUnique_example :
    let i = 34 % table_size in
    let added = macdesc_indicate known macdesc_add 34 0 peer_mac in
    let deleted = macdesc_indicate known macdesc_del 34 0 peer_mac in
    IsUnique added.nodes
    × Added known added i peer_mac
    × IsUnique deleted.nodes
    × ((deleted.nodes i).occupied ≡ false)
macdesc_indicate-IsUnique_example = macdesc_indicate-IsUnique known 34 0 peer_mac known-IsUnique

-- The peer moves to slot 2. Its packet stays in the queue of slot 1, which is not occupied; when
-- another peer comes there, the queue is emptied and the packet is not freed.
abbrev moved : Descriptors
moved = macdesc_indicate known macdesc_add 2 0 peer_mac

abbrev forgotten : Descriptors
forgotten = macdesc_indicate moved macdesc_add 1 0 zero_mac

packet_forgotten :
    ((moved.nodes 1).occupied ≡ false)
    × ((moved.nodes 1).psq ≡ (known.nodes 1).psq)
    × ((forgotten.nodes 1).psq ≡ [])
    × (forgotten.freed ≡ [])
unfolding macdesc_indicate macdesc_lookup add_node macdesc_init macdesc_deinit
packet_forgotten = (refl, refl, refl, refl)
