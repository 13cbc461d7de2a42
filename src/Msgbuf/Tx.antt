-- ===== src/Msgbuf/Tx.antt =====
-- msgbuf.c: transmission. A packet goes into the queue of its flow ring, and the worker moves the
-- queue to the submission ring; a flow ring that does not exist yet is asked of the firmware first.
pub mod Headers
pub mod Ring
pub mod Named
pub mod Posting
pub mod Rounds
pub mod Moves
pub mod Queue
use omdrop_awdl.Prelude.{
  ℕ, zero, suc, ◌+◌, ◌-◌, ◌*◌, ◌/◌, ◌%◌, ◌^◌, Bool, true, false, not, ◌||◌, Option, none, some,
  List, [], ◌∷◌, ◌++◌, ◌==◌, ltb, leb, update, u16, u32, Status, success, enomem, if◌then◌else◌,
  ◌>>=◌,
}
use omdrop_awdl.Commonring.{Commonring, config, write_available, reserve_for_write, write_complete}
use omdrop_awdl.Pcie.{RingMailbox, DeviceRing}
use omdrop_awdl.Pcie.Sharing.{host}
use omdrop_awdl.Flowring.{Mac, Skb, Flowring, invalid_id}
use omdrop_awdl.Flowring.Table.{lookup, create}
use omdrop_awdl.Flowring.Flow.{ifidx_get, tid, qlen, enqueue, dequeue, reinsert, delete}
use omdrop_awdl.Msgbuf.Pktids.{Pktids, alloc_pktid, get_pktid}
use omdrop_awdl.Msgbuf.Tx.Headers.{Buffers, TxHeader, tx_header, CreateReq, create_req, WorkItem}

-- What transmission uses of `struct brcmf_msgbuf`. `posted` are the headers written to the flow
-- rings, `requested` those written to the control ring and `completed` the packets handed to
-- brcmf_txfinalize as sent, each in order; `dma` is the DMA address of each flow ring's buffer, if it
-- has one, and `queued` the number of calls of queue_work.
pub record Msgbuf : Type 0 where
  pub flow : Flowring
  pub tx_pktids : Pktids
  pub flowrings : ℕ → DeviceRing
  pub outstanding_tx : ℕ → ℕ
  pub flow_map : ℕ → Bool
  pub txstatus_done_map : ℕ → Bool
  pub completed : List ℕ
  pub queued : ℕ
  pub posted : List TxHeader
  pub control : DeviceRing
  pub requested : List CreateReq
  pub dma : ℕ → Option ℕ
  pub work_queue : List WorkItem

abbrev pub flush_cnt1 : ℕ
flush_cnt1 = 32

abbrev pub flush_cnt2 : ℕ
flush_cnt2 = 96

abbrev pub set_flowring : Msgbuf → ℕ → Commonring RingMailbox → Msgbuf
set_flowring s flowid r = record s { flowrings = update s.flowrings flowid r.ring }

-- brcmf_commonring_write_complete, whose result is not used.
abbrev pub complete : Msgbuf → ℕ → Msgbuf
complete s flowid = set_flowring s flowid (write_complete (host (s.flowrings flowid))).1

-- A slot of the ring is filled in, and the ring is completed after every `flush_cnt2` of them. The
-- result is the count.
unfoldable pub post : Buffers → Msgbuf → ℕ → ℕ → Skb → ℕ → ℕ → ℕ → ℕ × Msgbuf
post buffers s flowid count skb pktid ifidx slot =
    let s1 : Msgbuf = record s {
      posted = s.posted ++ (tx_header buffers skb pktid ifidx slot ∷ []);
      outstanding_tx = update s.outstanding_tx flowid (s.outstanding_tx flowid + 1);
    } in
    let done : Bool = leb flush_cnt2 (u32 (count + 1)) in
    (
      if done then 0 else u32 (count + 1),
      record s1 { flowrings = if done then (complete s1 flowid).flowrings else s1.flowrings },
    )

-- The packet goes back to the head of the queue, and the loop ends.
abbrev pub put_back : Msgbuf → ℕ → Skb → ℕ → Option (Bool × (ℕ × Msgbuf))
put_back s flowid skb count = do
  flow ← reinsert s.flow flowid skb
  some (false, (count, record s { flow = flow }))

-- The packet has an id; the slot is what reserve_for_write returns. Whether the loop goes on is
-- returned too.
unfoldable pub place : Buffers → Msgbuf → ℕ → ℕ → Skb → ℕ → Option ℕ → Option (Bool × (ℕ × Msgbuf))
place buffers s flowid count skb pktid none =
    put_back (record s { tx_pktids = (get_pktid s.tx_pktids pktid).1 }) flowid skb count
place buffers s flowid count skb pktid (some slot) = do
  ifidx ← ifidx_get s.flow flowid
  some (true, post buffers s flowid count skb pktid ifidx slot)

-- The id is what alloc_pktid returns.
unfoldable pub submit : Buffers → Msgbuf → ℕ → ℕ → Skb → Option ℕ → Option (Bool × (ℕ × Msgbuf))
submit buffers s flowid count skb none = put_back s flowid skb count
submit buffers s flowid count skb (some pktid) =
    let (slot, r) = reserve_for_write (host (s.flowrings flowid)) in
    place buffers (set_flowring s flowid r) flowid count skb pktid slot

abbrev pub eth_hlen : ℕ
eth_hlen = 14

-- A packet that dequeue has returned.
unfoldable pub transmit : Buffers → Msgbuf → ℕ → ℕ → Option Skb → Option (Bool × (ℕ × Msgbuf))
transmit buffers s flowid count none = some (false, (count, s))
transmit buffers s flowid count (some skb) =
    let (pktid, tx_pktids) =
      alloc_pktid s.tx_pktids skb.id eth_hlen (buffers.dma_map_single skb.id) in
    submit buffers (record s { tx_pktids = tx_pktids }) flowid count skb pktid

-- The loop of txflow, at most `rounds` times. `none` is a fault or the end of the rounds.
unfoldable pub tx_rounds : ℕ → Buffers → Msgbuf → ℕ → ℕ → Option (ℕ × Msgbuf)
tx_rounds zero buffers s flowid count = none
tx_rounds (suc rounds) buffers s flowid count = do
  n ← qlen s.flow flowid
  if n == 0 then some (count, s) else do
    (skb, flow) ← dequeue s.flow flowid
    (go, (count1, s1)) ← transmit buffers (record s { flow = flow }) flowid count skb
    let rest = tx_rounds rounds buffers s1 flowid count1
    if go then rest else some (count1, s1)

-- No packet is queued meanwhile: one round for each packet of the queue, and one that finds it
-- empty.
unfoldable pub txflow : Buffers → Msgbuf → ℕ → Option Msgbuf
txflow buffers s flowid =
    let (room, r) = write_available (host (s.flowrings flowid)) in
    let s1 : Msgbuf = set_flowring s flowid r in
    if not room then some s1 else do
      n ← qlen s1.flow flowid
      (count, s2) ← tx_rounds (n + 1) buffers s1 flowid (flush_cnt2 - flush_cnt1)
      some (if count == 0 then s2 else complete s2 flowid)

-- The loop over the flow map, from `flowid` on, `left` bits long.
unfoldable pub txflow_each : ℕ → Buffers → Msgbuf → ℕ → Option Msgbuf
txflow_each zero buffers s flowid = some s
txflow_each (suc left) buffers s flowid = do
  s1 ←
      if s.flow_map flowid
      then txflow buffers (record s { flow_map = update s.flow_map flowid false }) flowid
      else some s
  txflow_each left buffers s1 (flowid + 1)

unfoldable pub txflow_worker : Buffers → Msgbuf → ℕ → Option Msgbuf
txflow_worker buffers s max_flowrings = txflow_each max_flowrings buffers s 0

abbrev pub delay_thrs : ℕ
delay_thrs = 96

unfoldable pub schedule_txdata : Msgbuf → ℕ → Bool → Msgbuf
schedule_txdata s flowid force = record s {
  flow_map = update s.flow_map flowid true;
  queued = s.queued + (if force || ltb (s.outstanding_tx flowid) delay_thrs then 1 else 0);
}

-- The new flow ring is asked for, unless its id is BRCMF_FLOWRING_INVALID_ID.
unfoldable pub add_work : Msgbuf → Skb → ℕ → ℕ → Msgbuf
add_work s skb ifidx flowid = record s {
  work_queue =
      if flowid == invalid_id
      then s.work_queue
      else s.work_queue
        ++ (record { flowid = flowid; ifidx = ifidx; sa = skb.h_source; da = skb.h_dest } ∷ []);
}

-- `kzalloc` says whether the work item can be allocated, and whether the ring can.
unfoldable pub flowring_create : Bool → Bool → Msgbuf → ℕ → Skb → ℕ × Msgbuf
flowring_create item ring s ifidx skb =
    let (flowid, flow) = create ring s.flow skb.h_dest skb.priority ifidx in
    if not item
    then (invalid_id, s)
    else (flowid, add_work (record s { flow = flow }) skb ifidx flowid)

abbrev pub trickle_thrs : ℕ
trickle_thrs = 32

-- A packet for a flow ring that lookup has found, or that has been created. The parameter of
-- brcmf_flowring_enqueue is a `u16`.
unfoldable pub queue_found : Msgbuf → Skb → ℕ → Option (Status × Msgbuf)
queue_found s skb flowid = do
  (queue_count, flow) ← enqueue s.flow (u16 flowid) skb
  some
      (success, schedule_txdata (record s { flow = flow }) flowid (queue_count % trickle_thrs == 0))

unfoldable pub queue_created : Msgbuf → Skb → ℕ → Option (Status × Msgbuf)
queue_created s skb flowid = if flowid == invalid_id then some (enomem, s) else do
  (queue_count, flow) ← enqueue s.flow (u16 flowid) skb
  some (success, record s { flow = flow })

unfoldable pub tx_queue_data : Bool → Bool → Msgbuf → ℕ → Skb → Option (Status × Msgbuf)
tx_queue_data item ring s ifidx skb =
    let flowid : ℕ = lookup s.flow skb.h_dest skb.priority ifidx in
    let (created, s1) = flowring_create item ring s ifidx skb in
    if flowid == invalid_id then queue_created s1 skb created else queue_found s skb flowid

-- The buffer of the flow ring goes back, and then the ring.
unfoldable pub remove_flowring : Msgbuf → ℕ → Option Msgbuf
remove_flowring s flowid = do
  flow ← delete s.flow flowid
  some (record s { flow = flow; dma = update s.dma flowid none })

abbrev pub max_item : ℕ
max_item = 512

abbrev pub item_size : ℕ
item_size = 48

-- The request, in the slot that reserve_for_write returns.
unfoldable pub request : Msgbuf → WorkItem → ℕ → Option ℕ → Option (ℕ × Msgbuf)
request s work address none = do s1 ← remove_flowring s work.flowid; some (invalid_id, s1)
request s work address (some slot) = do
  class ← tid s.flow work.flowid
  let (status, r) = write_complete (host s.control)
  let s1 : Msgbuf = record s {
    control = r.ring;
    requested = s.requested ++ (create_req work class address max_item item_size slot ∷ []);
  }
  elim status [
    | success ↦ some (work.flowid, s1)
    | _ ↦ do s2 ← remove_flowring s1 work.flowid; some (invalid_id, s2)
  ]

-- `dma_alloc` are the two addresses that dma_alloc_coherent returns, the buffer's and the
-- device's, if it succeeds.
unfoldable pub create_worker : Option (ℕ × ℕ) → Msgbuf → WorkItem → Option (ℕ × Msgbuf)
create_worker none s work = do
  flow ← delete s.flow work.flowid
  some (invalid_id, record s { flow = flow })
create_worker (some (dma_buf, address)) s work =
    let r : Commonring RingMailbox =
      config (host (s.flowrings work.flowid)) max_item item_size dma_buf in
    let (slot, control) = reserve_for_write (host s.control) in
    request
      (record (set_flowring s work.flowid r) {
        control = control.ring;
        dma = update s.dma work.flowid (some address);
      })
      work address slot

-- The loop over the items `work`, which are those of the queue. No item is queued meanwhile.
unfoldable pub create_each : (WorkItem → Option (ℕ × ℕ)) → Msgbuf → List WorkItem → Option Msgbuf
create_each dma_alloc s [] = some s
create_each dma_alloc s (work ∷ works) = do
  (flowid, s1) ← create_worker (dma_alloc work) (record s { work_queue = works }) work
  create_each dma_alloc s1 works

unfoldable pub flowring_worker : (WorkItem → Option (ℕ × ℕ)) → Msgbuf → Option Msgbuf
flowring_worker dma_alloc s = create_each dma_alloc s s.work_queue
