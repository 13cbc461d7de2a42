-- ===== src/Flowring/Flow.antt =====
-- flowring.c: the queue of a ring, and how full queues stop the interface.
pub mod Stop
pub mod Block
pub mod Queues
pub mod Removal
use omdrop_awdl.Prelude.{
  ℕ, zero, suc, ◌+◌, Bool, true, false, not, ◌&&◌, Option, none, some, List, [], ◌∷◌, ◌++◌, ◌==◌,
  ltb, length, bool_eq, update, if◌then◌else◌, ◌>>=◌,
}
use omdrop_awdl.Flowring.{
  zero_mac, invalid_ifidx, HashEntry, opened, is_open, Skb, FlowRing, Flowring, ring_slot, ring_at,
  set_ring,
}

abbrev pub flowring_high : ℕ
flowring_high = 1024

-- BRCMF_FLOWRING_HIGH - 256
abbrev pub flowring_low : ℕ
flowring_low = 768

-- The interface of a ring, by its table entry.
abbrev pub ifidx_of : Flowring → FlowRing → ℕ
ifidx_of flow ring = (flow.hash ring.hash_id).ifidx

unfoldable pub ifidx_get : Flowring → ℕ → Option ℕ
ifidx_get flow flowid = do ring ← ring_at flow flowid; some (ifidx_of flow ring)

unfoldable pub tid : Flowring → ℕ → Option ℕ
tid flow flowid = do ring ← ring_at flow flowid; some (flow.hash ring.hash_id).fifo

-- brcmf_txflowblock_if with BRCMF_NETIF_STOP_REASON_FLOW.
abbrev pub txflowblock : Flowring → ℕ → Bool → Flowring
txflowblock flow ifidx state = record flow { stopped = update flow.stopped ifidx state }

-- Ring `i` is another open ring of the interface, and is blocked.
unfoldable pub is_other_blocked : Flowring → ℕ → ℕ → ℕ → Bool
is_other_blocked flow flowid ifidx i = elim (flow.rings i) [
  | none ↦ false
  | some ring ↦
      not (i == flowid) && (is_open ring.status && ((ifidx_of flow ring == ifidx) && ring.blocked))
]

-- The loop over the rings from `i` on, `left` of them.
unfoldable pub any_other_blocked : Flowring → ℕ → ℕ → ℕ → ℕ → Bool
any_other_blocked flow flowid ifidx i zero = false
any_other_blocked flow flowid ifidx i (suc left) =
    let rest : Bool = any_other_blocked flow flowid ifidx (i + 1) left in
    if is_other_blocked flow flowid ifidx i then true else rest

unfoldable pub block : Flowring → ℕ → Bool → Option Flowring
block flow flowid blocked = do
  ring ← ring_at flow flowid
  let flow1 = set_ring flow flowid (record ring { blocked = blocked })
  let ifidx = ifidx_of flow ring
  if bool_eq ring.blocked blocked
      then some flow
      else (if any_other_blocked flow flowid ifidx 0 flow.nrofrings
          then some flow1
          else some (txflowblock flow1 ifidx blocked))

-- `while (skb) { brcmf_txfinalize(ifp, skb, false); skb = skb_dequeue(...); }`
unfoldable pub finalize : List Skb → List Skb → List Skb
finalize [] done = done
finalize (skb ∷ skbs) done = finalize skbs (skb ∷ done)

-- The table entry is cleared, the ring removed, and its packets are finalized in order.
unfoldable pub remove_ring : Flowring → ℕ → FlowRing → Flowring
remove_ring flow flowid ring = record flow {
  hash =
      update flow.hash ring.hash_id
        (record (flow.hash ring.hash_id) { ifidx = invalid_ifidx; mac = zero_mac });
  rings = update flow.rings flowid none;
  finalized = finalize ring.skblist flow.finalized;
}

-- The ring that delete finds: a NULL one is left.
unfoldable pub delete_ring : Flowring → ℕ → Option FlowRing → Option Flowring
delete_ring flow flowid none = some flow
delete_ring flow flowid (some ring) = do
  flow1 ← block flow flowid false
  some (remove_ring flow1 flowid ring)

unfoldable pub delete : Flowring → ℕ → Option Flowring
delete flow flowid = do slot ← ring_slot flow flowid; delete_ring flow flowid slot

-- The queue length is read again after a block; no other thread is modelled in between.
unfoldable pub enqueue : Flowring → ℕ → Skb → Option (ℕ × Flowring)
enqueue flow flowid skb = do
  ring ← ring_at flow flowid
  let skblist = ring.skblist ++ (skb ∷ [])
  let flow1 = set_ring flow flowid (record ring { skblist = skblist })
  let over = not ring.blocked && ltb flowring_high (length skblist)
  flow2 ← if over then block flow1 flowid true else some flow1
  flow3 ← if over && ltb (length skblist) flowring_low then block flow2 flowid false else some flow2
  some (length skblist, flow3)

-- skb_dequeue
abbrev pub first_skb : List Skb → Option Skb
first_skb [] = none
first_skb (skb ∷ skbs) = some skb

abbrev pub other_skbs : List Skb → List Skb
other_skbs [] = []
other_skbs (skb ∷ skbs) = skbs

unfoldable pub dequeue : Flowring → ℕ → Option (Option Skb × Flowring)
dequeue flow flowid = do
  ring ← ring_at flow flowid
  let skblist = other_skbs ring.skblist
  let flow1 = set_ring flow flowid (record ring { skblist = skblist })
  let drained = ring.blocked && ltb (length skblist) flowring_low
  if not (is_open ring.status) then some (none, flow) else do
    flow2 ← if drained then block flow1 flowid false else some flow1
    some (first_skb ring.skblist, flow2)

unfoldable pub reinsert : Flowring → ℕ → Skb → Option Flowring
reinsert flow flowid skb = do
  ring ← ring_at flow flowid
  some (set_ring flow flowid (record ring { skblist = skb ∷ ring.skblist }))

unfoldable pub qlen : Flowring → ℕ → Option ℕ
qlen flow flowid = do
  slot ← ring_slot flow flowid
  elim slot [
    | none ↦ some 0
    | some ring ↦ if not (is_open ring.status) then some 0 else some (length ring.skblist)
  ]

unfoldable pub open_slot : Flowring → ℕ → Option FlowRing → Flowring
open_slot flow flowid none = flow
open_slot flow flowid (some ring) = set_ring flow flowid (record ring { status = opened })

unfoldable pub open_ring : Flowring → ℕ → Option Flowring
open_ring flow flowid = do slot ← ring_slot flow flowid; some (open_slot flow flowid slot)
