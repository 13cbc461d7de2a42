-- ===== src/Fwsignal/Macdesc.antt =====
-- fwsignal.c: the descriptors of the peers, in slots that the firmware names.
pub mod Unique
pub mod Told
use omdrop_awdl.Prelude.{
  ℕ, zero, suc, ◌+◌, ◌%◌, Bool, true, false, not, ◌&&◌, Option, none, some, List, [], ◌∷◌, ◌++◌,
  ◌==◌, update, u32, if◌then◌else◌,
}
use omdrop_awdl.Flowring.{Mac, mac_eq}
use omdrop_awdl.Fwsignal.Hanger.{Hanger, item_free, poppkt}
use omdrop_awdl.Fwsignal.Signals.{macdesc_del}

-- BRCMF_FWS_MAC_DESC_TABLE_SIZE
abbrev pub table_size : ℕ
table_size = 32

-- BRCMF_FWS_STATE_OPEN and BRCMF_FWS_STATE_CLOSE
pub data DescState : Type 0 where
  state_open state_close : DescState

-- A packet that waits for a peer, with its slot of the hanger.
pub record Waiting : Type 0 where
  pub skb : ℕ
  pub hslot : ℕ

-- `struct brcmf_fws_mac_descriptor`, without its name and what is about traffic indications and
-- packets in transit. `psq` has the packets in the order of their precedences.
pub record Macdesc : Type 0 where
  pub occupied : Bool
  pub mac_handle : ℕ
  pub interface_id : ℕ
  pub state : DescState
  pub suppressed : Bool
  pub generation : ℕ
  pub ac_bitmap : ℕ
  pub requested_credit : ℕ
  pub requested_packet : ℕ
  pub ea : Mac
  pub seq : ℕ → ℕ
  pub psq : List Waiting

-- What the descriptors need of `struct brcmf_fws_info`, and the packets that were freed.
pub record Descriptors : Type 0 where
  pub nodes : ℕ → Macdesc
  pub hanger : Hanger
  pub mac_update_failed : ℕ
  pub freed : List ℕ

abbrev pub set_node : Descriptors → ℕ → Macdesc → Descriptors
set_node s i desc = record s { nodes = update s.nodes i desc }

abbrev pub update_failed : Descriptors → Descriptors
update_failed s = record s { mac_update_failed = u32 (s.mac_update_failed + 1) }

unfoldable pub macdesc_init : Macdesc → Mac → ℕ → Macdesc
macdesc_init desc addr ifidx = record desc {
  occupied = true;
  state = state_open;
  requested_credit = 0;
  requested_packet = 0;
  interface_id = ifidx;
  ac_bitmap = 0xff;
  ea = addr;
}

unfoldable pub macdesc_deinit : Macdesc → Macdesc
macdesc_deinit desc = record desc {
  occupied = false;
  state = state_close;
  requested_credit = 0;
  requested_packet = 0;
}

-- The loop from slot `i` on, over `count` of them.
unfoldable pub macdesc_lookup : ℕ → (ℕ → Macdesc) → Mac → ℕ → Option ℕ
macdesc_lookup zero nodes ea i = none
macdesc_lookup (suc count) nodes ea i =
    let rest : Option ℕ = macdesc_lookup count nodes ea (i + 1) in
    if (nodes i).occupied && mac_eq (nodes i).ea ea then some i else rest

-- The packet that is freed: the one that poppkt returns, if it does.
abbrev pub popped_or : ℕ → Option ℕ → ℕ
popped_or skb none = skb
popped_or skb (some pktout) = pktout

-- The loops for an `ifidx` of -1, which matches every packet. A slot is one of the hanger's.
unfoldable pub psq_flush : List Waiting → Descriptors → Descriptors
psq_flush [] s = s
psq_flush (p ∷ ps) s =
    let h : Hanger = record (s.hanger) {
      items = update s.hanger.items p.hslot (record (s.hanger.items p.hslot) { state = item_free });
    } in
    let ((status, pktout), h1) = poppkt h p.hslot true in
    psq_flush ps (record s { hanger = h1; freed = s.freed ++ (popped_or p.skb pktout ∷ []) })

-- A descriptor that is occupied is cleaned up, which leaves no packet in its queue.
unfoldable pub delete_node : Descriptors → ℕ → Descriptors
delete_node s i =
    let entry : Macdesc = s.nodes i in
    if entry.occupied
    then set_node (psq_flush entry.psq s) i
        (macdesc_deinit (record entry { psq = []; occupied = false }))
    else update_failed s

-- With the slot that macdesc_lookup finds for the address. Of an existing descriptor, all that stands
-- before `psq` is copied.
unfoldable pub add_node : Descriptors → ℕ → ℕ → ℕ → Mac → Option ℕ → Descriptors
add_node s i mac_handle ifidx addr none =
    let entry : Macdesc =
      macdesc_init (record (s.nodes i) { mac_handle = mac_handle }) addr ifidx in
    if not (s.nodes i).occupied then set_node s i (record entry { psq = [] }) else update_failed s
add_node s i mac_handle ifidx addr (some existing) =
    let copied : Macdesc = record (s.nodes existing) {
      mac_handle = mac_handle;
      psq = (s.nodes i).psq;
    } in
    if i == existing
    then s
    else set_node (set_node s i copied) existing (macdesc_deinit (s.nodes existing))

unfoldable pub macdesc_indicate : Descriptors → ℕ → ℕ → ℕ → Mac → Descriptors
macdesc_indicate s type mac_handle ifidx addr =
    let i : ℕ = mac_handle % table_size in
    if type == macdesc_del
    then delete_node s i
    else add_node s i mac_handle ifidx addr (macdesc_lookup table_size s.nodes addr 0)
