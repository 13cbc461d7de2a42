-- ===== src/Flowring/Table.antt =====
-- flowring.c: attach, lookup and create.
pub mod Probe
pub mod Linked
pub mod Find
pub mod Refused
use omdrop_awdl.Prelude.{
  ℕ, zero, suc, ◌+◌, ◌*◌, ◌%◌, Bool, true, false, not, ◌&&◌, ◌||◌, Option, none, some, List, [],
  ◌∷◌, ◌==◌, ltb, is_none, update, if◌then◌else◌,
}
use omdrop_awdl.Flowring.{
  Mac, zero_mac, allffmac, mac_eq, is_multicast_ether_addr, is_zero_ether_addr, hashsize,
  invalid_ifidx, invalid_id, enomem_id, HashEntry, closed, indirect, is_indirect, FlowRing,
  Flowring,
}

unfoldable pub attach : ℕ → Flowring
attach nrofrings = record {
  hash = λ i. record { mac = zero_mac; fifo = 0; ifidx = invalid_ifidx; flowid = 0 };
  rings = λ i. none;
  addr_mode = λ i. indirect;
  nrofrings = nrofrings;
  tdls_active = false;
  tdls_entry = [];
  stopped = λ i. false;
  finalized = [];
}

-- brcmf_flowring_prio2fifo, which has entries for the priorities below 8.
abbrev pub prio2fifo : ℕ → ℕ
prio2fifo prio =
    if ltb prio 4
    then (if (prio == 1) || (prio == 2) then 1 else 0)
    else (if ltb prio 6 then 2 else 3)

unfoldable pub is_tdls_mac : List Mac → Mac → Bool
is_tdls_mac [] mac = false
is_tdls_mac (entry ∷ entries) mac = mac_eq entry mac || is_tdls_mac entries mac

-- What lookup and create make of their arguments: the first lines of both.
pub record Key : Type 0 where
  pub sta : Bool
  pub mac : Mac
  pub fifo : ℕ
  pub ifidx : ℕ

unfoldable pub key : Flowring → Mac → ℕ → ℕ → Key
key flow da prio ifidx =
    let sta : Bool = is_indirect (flow.addr_mode ifidx) in
    let group : Bool = not sta && is_multicast_ether_addr da in
    record {
      sta = sta && not (flow.tdls_active && is_tdls_mac flow.tdls_entry da);
      mac = if group then allffmac else da;
      fifo = if group then 0 else prio2fifo prio;
      ifidx = ifidx;
    }

abbrev pub hash_start : Key → ℕ
hash_start k =
    (if k.sta then k.fifo + k.ifidx * 16 else k.mac.b5 * 2 + k.fifo + k.ifidx * 16) % hashsize

-- The test of lookup, and that of create.
abbrev pub matches : Key → HashEntry → Bool
matches k e = (k.sta || mac_eq e.mac k.mac) && ((e.fifo == k.fifo) && (e.ifidx == k.ifidx))

abbrev pub is_free : HashEntry → Bool
is_free e = (e.ifidx == invalid_ifidx) && is_zero_ether_addr e.mac

-- The loop over the hash table from `hash_idx` on, `rounds` entries long.
unfoldable pub probe : (HashEntry → Bool) → (ℕ → HashEntry) → ℕ → ℕ → Option ℕ
probe test hash hash_idx zero = none
probe test hash hash_idx (suc rounds) =
    let rest : Option ℕ = probe test hash ((hash_idx + 1) % hashsize) rounds in
    if test (hash hash_idx) then some hash_idx else rest

unfoldable pub entry_id : Flowring → Option ℕ → ℕ
entry_id flow none = invalid_id
entry_id flow (some i) = (flow.hash i).flowid

unfoldable pub lookup : Flowring → Mac → ℕ → ℕ → ℕ
lookup flow da prio ifidx =
    let k : Key = key flow da prio ifidx in
    entry_id flow (probe (matches k) flow.hash (hash_start k) hashsize)

-- The first ring that is NULL, from `i` on; past the last one if there is none.
unfoldable pub first_null : (ℕ → Option FlowRing) → ℕ → ℕ → ℕ
first_null rings i zero = i
first_null rings i (suc left) =
    let rest : ℕ = first_null rings (i + 1) left in if is_none (rings i) then i else rest

-- The new ring in slot `hash_idx` of the table and slot `i` of the rings.
unfoldable pub add_ring : Flowring → Key → ℕ → ℕ → Flowring
add_ring flow k hash_idx i = record flow {
  hash =
      update flow.hash hash_idx
        (record { mac = k.mac; fifo = k.fifo; ifidx = k.ifidx; flowid = i });
  rings =
      update flow.rings i
        (some (record { hash_id = hash_idx; blocked = false; status = closed; skblist = [] }));
}

-- The second half of create, with the free entry that the first half has found. `kzalloc` says
-- whether the allocation of the ring succeeds.
unfoldable pub claim_entry : Bool → Flowring → Key → Option ℕ → ℕ × Flowring
unfolding first_null add_ring
claim_entry kzalloc flow k none = (invalid_id, flow)
claim_entry kzalloc flow k (some hash_idx) =
    let i : ℕ = first_null flow.rings 0 flow.nrofrings in
    if i == flow.nrofrings
    then (enomem_id, flow)
    else if kzalloc
    then (i, add_ring flow k hash_idx i)
    else (enomem_id, flow)

unfoldable pub create : Bool → Flowring → Mac → ℕ → ℕ → ℕ × Flowring
create kzalloc flow da prio ifidx =
    let k : Key = key flow da prio ifidx in
    claim_entry kzalloc flow k (probe is_free flow.hash (hash_start k) hashsize)
