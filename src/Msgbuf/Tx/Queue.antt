-- ===== src/Msgbuf/Tx/Queue.antt =====
-- msgbuf.c: the ends that a call of brcmf_msgbuf_tx_queue_data has.
use omdrop_awdl.Prelude.{
  ℕ, ◌%◌, ◌≤◌, ◌<◌, ◌≡◌, ◌≢◌, ◌⊎◌, inl, inr, refl, Bool, true, false, Option, none, some, List, [],
  ◌∷◌, ◌++◌, ◌==◌, length, arith, Bool-cases, ◌∙◌, ap, u16, Status, success, enomem, if◌then◌else◌,
}
use omdrop_awdl.Flowring.{
  closed, Skb, FlowRing, Flowring, invalid_ifidx, invalid_id, enomem_id, ring_at,
}
use omdrop_awdl.Flowring.Table.{Key, lookup, create, add_ring}
use omdrop_awdl.Flowring.Table.Linked.{create-cases, Created}
use omdrop_awdl.Flowring.Table.Refused.{create-refused, lookup-some}
use omdrop_awdl.Flowring.Flow.{enqueue}
use omdrop_awdl.Flowring.Flow.Stop.{IsAccountable}
use omdrop_awdl.Flowring.Flow.Queues.{enqueue-IsAccountable, queued}
use omdrop_awdl.Flowring.Calls.{create-IsAccountable}
use omdrop_awdl.Msgbuf.Tx.{
  Msgbuf, tx_queue_data, flowring_create, queue_found, queue_created, add_work, schedule_txdata,
  trickle_thrs,
}
use omdrop_awdl.Msgbuf.Tx.Headers.{WorkItem}

-- The packet is the last one in the queue of flow ring `flowid`, behind `queue`.
pub record Accepted (s' : Msgbuf) (flowid : ℕ) (queue : List Skb) (skb : Skb) : Type 0 where
  pub ring : FlowRing
  pub at : ring_at s'.flow flowid ≡ some ring
  pub last : ring.skblist ≡ queue ++ (skb ∷ [])
  pub accountable : IsAccountable s'.flow

-- The request for a new flow ring.
abbrev pub work_for : ℕ → ℕ → Skb → WorkItem
work_for flowid ifidx skb = record {
  flowid = flowid;
  ifidx = ifidx;
  sa = skb.h_source;
  da = skb.h_dest;
}

-- The flow ring exists: its work is scheduled.
abbrev pub Found : Msgbuf → ℕ → Skb → Option (Status × Msgbuf) → Type 0
Found s ifidx skb result =
    let flowid = lookup s.flow skb.h_dest skb.priority ifidx in
    (ring : FlowRing) × (s' : Msgbuf) × (ring_at s.flow flowid ≡ some ring)
    × (result ≡ some (success, s'))
    × Accepted s' flowid ring.skblist skb
    × (s'.flow_map flowid ≡ true)
    × (s'.work_queue ≡ s.work_queue)

-- A flow ring is created, and asked for.
abbrev pub Made : Msgbuf → ℕ → Skb → Option (Status × Msgbuf) → Type 0
Made s ifidx skb result =
    (flowid : ℕ) × (s' : Msgbuf) × (ring_at s.flow flowid ≡ none)
    × (result ≡ some (success, s'))
    × Accepted s' flowid [] skb
    × (s'.work_queue ≡ s.work_queue ++ (work_for flowid ifidx skb ∷ []))

-- The answer of create that the code does not know: the ring that it names is out of range.
abbrev pub Unchecked : Bool → Bool → Msgbuf → ℕ → Skb → Type 0
Unchecked item ring s ifidx skb =
    (item ≡ true) × ((create ring s.flow skb.h_dest skb.priority ifidx).0 ≡ enomem_id)

module _ (s : Msgbuf) (skb : Skb) (acc : IsAccountable s.flow) (flowid : ℕ) (ring : FlowRing)
    (id_in : flowid < s.flow.nrofrings) (at : ring_at s.flow flowid ≡ some ring) where
  found_lem :
      (s' : Msgbuf) × (queue_found s skb flowid ≡ some (success, s'))
      × Accepted s' flowid ring.skblist skb
      × (s'.flow_map flowid ≡ true)
      × (s'.work_queue ≡ s.work_queue)
  unfolding queue_found schedule_txdata
  found_lem =
      let (flow', e, acc', at') = enqueue-IsAccountable s.flow flowid ring skb at acc in
      let same : u16 flowid ≡ flowid = omega (arith, acc.linked.fits) in
      let force = length (ring.skblist ++ (skb ∷ [])) % trickle_thrs == 0 in
      (
        schedule_txdata (record s { flow = flow' }) flowid force,
        rw (same, e) refl,
        record { ring = queued ring skb; at = at'; last = refl; accountable = acc' },
        ground arith,
        refl,
      )

  made_lem :
      (s' : Msgbuf) × (queue_created s skb flowid ≡ some (success, s'))
      × Accepted s' flowid ring.skblist skb
      × (s'.work_queue ≡ s.work_queue)
  unfolding queue_created
  made_lem =
      let (flow', e, acc', at') = enqueue-IsAccountable s.flow flowid ring skb at acc in
      let same : u16 flowid ≡ flowid = omega (arith, acc.linked.fits) in
      let valid : (flowid == invalid_id) ≡ false = ground (arith, acc.linked.fits) in
      (
        record s { flow = flow' },
        rw valid (rw (same, e) refl),
        record { ring = queued ring skb; at = at'; last = refl; accountable = acc' },
        refl,
      )

-- A new flow ring is empty.
Created-ring :
    (flow : Flowring) (k : Key) (id : ℕ) (flow' : Flowring)
    → Created flow k id flow'
    → (ring : FlowRing) × (ring_at flow' id ≡ some ring)
      × (ring.skblist ≡ [])
      × (id < flow'.nrofrings)
unfolding add_ring
Created-ring flow k id flow' c = rw c.added (
  record { hash_id = c.entry; blocked = false; status = closed; skblist = [] },
  ground (arith, c.id_in),
  refl,
  c.id_in,
)

enomem_lem :
    (s : Msgbuf) (skb : Skb) → s.flow.nrofrings ≤ 0xfff4 → queue_created s skb enomem_id ≡ none
unfolding queue_created enqueue
enomem_lem s skb fits = ground arith

invalid_lem :
    (s : Msgbuf) (skb : Skb) (ifidx : ℕ) (flow : Flowring)
    → flow ≡ s.flow
    → queue_created (add_work (record s { flow = flow }) skb ifidx invalid_id) skb invalid_id
      ≡ some (enomem, s)
unfolding queue_created add_work
invalid_lem s skb ifidx flow same = rw same refl

-- Lookup has found nothing.
missing_lem :
    (item ring : Bool) (s : Msgbuf) (ifidx : ℕ) (skb : Skb)
    → ifidx ≢ invalid_ifidx
    → s.flow.nrofrings ≤ 0xfff4
    → IsAccountable s.flow
    → let (flowid, s1) = flowring_create item ring s ifidx skb in
      let result = queue_created s1 skb flowid in
      Made s ifidx skb result
      ⊎ (result ≡ some (enomem, s))
      ⊎ (Unchecked item ring s ifidx skb × (result ≡ none))
unfolding flowring_create add_work
missing_lem false ring s ifidx skb known fits acc = inr (inl (unfold queue_created in refl))
missing_lem true ring s ifidx skb known fits acc =
    let (flowid, flow') = create ring s.flow skb.h_dest skb.priority ifidx in
    let acc' = create-IsAccountable ring s.flow skb.h_dest skb.priority ifidx known acc in
    elim (create-cases ring s.flow skb.h_dest skb.priority ifidx acc.linked.fits) [
      | inl (out, same) ↦ elim (create-refused ring s.flow skb.h_dest skb.priority ifidx out) [
        | inl e ↦ inr (inl rw e (invalid_lem s skb ifidx flow' same))
        | inr e ↦
            inr (inr ((refl, e), rw e (enomem_lem _ skb (rw (ap (λ f. f.nrofrings) same) fits))))
      ]
      | inr c ↦
          let valid : (flowid == invalid_id) ≡ false = ground (arith, acc.linked.fits, c.id_in) in
          let (new, at, empty, id_in) = Created-ring s.flow _ flowid flow' c in
          let (s', e, accepted, same) =
            made_lem (add_work (record s { flow = flow' }) skb ifidx flowid) skb acc' flowid new
              id_in at in
          inl (
            flowid,
            s',
            ground (arith, c.unused),
            e,
            rw empty at accepted,
            same
                ∙ ap
                    (λ b.
                      if b then s.work_queue else s.work_queue ++ (work_for flowid ifidx skb ∷ []))
                    valid,
          )
    ]

-- A packet of a known interface, in an accountable state with at most 0xfff4 flow rings, meets one
-- of four ends. Its flow ring exists: it is put last in that queue and the ring is in the flow map.
-- A flow ring is created: the packet is alone in its queue, and a request for the ring is last in
-- the work queue. The answer is -ENOMEM and nothing has changed. Or create has answered -ENOMEM as
-- a flow ring number, which the code does not recognise, and the call faults.
pub tx_queue_data_ends :
    (item ring : Bool) (s : Msgbuf) (ifidx : ℕ) (skb : Skb)
    → ifidx ≢ invalid_ifidx
    → s.flow.nrofrings ≤ 0xfff4
    → IsAccountable s.flow
    → let result = tx_queue_data item ring s ifidx skb in
      Found s ifidx skb result
      ⊎ Made s ifidx skb result
      ⊎ (result ≡ some (enomem, s))
      ⊎ (Unchecked item ring s ifidx skb × (result ≡ none))
unfolding tx_queue_data
tx_queue_data_ends item ring s ifidx skb known fits acc =
    let flowid = lookup s.flow skb.h_dest skb.priority ifidx in
    elim (Bool-cases (flowid == invalid_id)) [
      | inl missing ↦ rw missing (inr (missing_lem item ring s ifidx skb known fits acc))
      | inr hit ↦
          let (r, id_in, at, _) =
            lookup-some s.flow skb.h_dest skb.priority ifidx acc.linked known (ground arith) in
          let (s', e, accepted, mapped, same) = found_lem s skb acc flowid r id_in at in
          rw hit (inl (r, s', at, e, accepted, mapped, same))
    ]
