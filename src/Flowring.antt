-- ===== src/Flowring.antt =====
-- flowring.c: the flow rings, one queue of packets for each destination, traffic class and
-- interface, and the hash table that finds them. Here are the data; the children hold the operations.
pub mod Table
pub mod Flow
pub mod Peers
pub mod Calls
pub mod Life
use omdrop_awdl.Prelude.{
  ℕ, ◌+◌, ◌%◌, ◌^◌, Bool, true, false, ◌&&◌, Option, none, some, List, [], ◌==◌, ltb, update,
  if◌then◌else◌,
}

-- `u8 mac[ETH_ALEN]`.
pub record Mac : Type 0 where
  pub b0 : ℕ
  pub b1 : ℕ
  pub b2 : ℕ
  pub b3 : ℕ
  pub b4 : ℕ
  pub b5 : ℕ

abbrev pub zero_mac : Mac
zero_mac = record { b0 = 0; b1 = 0; b2 = 0; b3 = 0; b4 = 0; b5 = 0 }

abbrev pub allffmac : Mac
allffmac = record { b0 = 0xff; b1 = 0xff; b2 = 0xff; b3 = 0xff; b4 = 0xff; b5 = 0xff }

-- `memcmp(a, b, ETH_ALEN) == 0`
abbrev pub mac_eq : Mac → Mac → Bool
mac_eq a b =
    (a.b0 == b.b0)
    && ((a.b1 == b.b1)
        && ((a.b2 == b.b2) && ((a.b3 == b.b3) && ((a.b4 == b.b4) && (a.b5 == b.b5)))))

-- The lowest bit of the first byte.
abbrev pub is_multicast_ether_addr : Mac → Bool
is_multicast_ether_addr a = a.b0 % 2 == 1

abbrev pub is_zero_ether_addr : Mac → Bool
is_zero_ether_addr a = mac_eq a zero_mac

-- What the flow rings read of a packet, whose `priority` is below 8.
pub record Skb : Type 0 where
  pub id : ℕ
  pub h_dest : Mac
  pub h_source : Mac
  pub priority : ℕ

abbrev pub hashsize : ℕ
hashsize = 512

abbrev pub invalid_ifidx : ℕ
invalid_ifidx = 0xff

-- The `u32` values BRCMF_FLOWRING_INVALID_ID and -ENOMEM.
abbrev pub invalid_id : ℕ
invalid_id = 0xffff_ffff

abbrev pub enomem_id : ℕ
enomem_id = 0xffff_fff4

pub record HashEntry : Type 0 where
  pub mac : Mac
  pub fifo : ℕ
  pub ifidx : ℕ
  pub flowid : ℕ

pub data RingStatus : Type 0 where
  closed closing opened : RingStatus

pub data AddrMode : Type 0 where
  indirect direct : AddrMode

pub record FlowRing : Type 0 where
  pub hash_id : ℕ
  pub blocked : Bool
  pub status : RingStatus
  pub skblist : List Skb

-- `struct brcmf_flowring`, its arrays as functions. Of what lies outside it, `stopped` is the bit
-- BRCMF_NETIF_STOP_REASON_FLOW of each interface, and `finalized` the packets handed to
-- brcmf_txfinalize as failed, the last one first.
pub record Flowring : Type 0 where
  pub hash : ℕ → HashEntry
  pub rings : ℕ → Option FlowRing
  pub addr_mode : ℕ → AddrMode
  pub nrofrings : ℕ
  pub tdls_active : Bool
  pub tdls_entry : List Mac
  pub stopped : ℕ → Bool
  pub finalized : List Skb

abbrev pub is_open : RingStatus → Bool
is_open opened = true
is_open _ = false

abbrev pub is_indirect : AddrMode → Bool
is_indirect indirect = true
is_indirect direct = false

-- `flow->rings[flowid]`, where that lies in the array.
abbrev pub ring_slot : Flowring → ℕ → Option (Option FlowRing)
ring_slot flow flowid = if ltb flowid flow.nrofrings then some (flow.rings flowid) else none

-- `*flow->rings[flowid]`, where that is a ring.
abbrev pub ring_at : Flowring → ℕ → Option FlowRing
ring_at flow flowid = if ltb flowid flow.nrofrings then flow.rings flowid else none

abbrev pub set_ring : Flowring → ℕ → FlowRing → Flowring
set_ring flow flowid ring = record flow { rings = update flow.rings flowid (some ring) }
