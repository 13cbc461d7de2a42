-- ===== src/Msgbuf/Completions.antt =====
-- msgbuf.c: the messages of the device about transmission and flow rings.
pub mod Status
use omdrop_awdl.Prelude.{
  ℕ, zero, suc, ◌+◌, ◌-◌, ◌%◌, ◌^◌, Bool, true, false, not, ◌&&◌, ◌||◌, Option, none, some, List,
  [], ◌∷◌, ◌++◌, ◌==◌, ltb, update, sub16, sub32, if◌then◌else◌, ◌>>=◌,
}
use omdrop_awdl.Flowring.Flow.{qlen, delete, open_ring}
use omdrop_awdl.Msgbuf.Pktids.{get_pktid}
use omdrop_awdl.Msgbuf.Tx.{Msgbuf, schedule_txdata, remove_flowring, trickle_thrs}
use omdrop_awdl.Msgbuf.Tx.Headers.{id_start}

-- The number of the flow ring that a message names.
abbrev pub flowid_of : ℕ → ℕ
flowid_of flow_ring_id = sub16 flow_ring_id id_start

-- With the packet that get_pktid returns: nothing, or the packet is sent. `flowrings` and the maps
-- have an entry for each flow ring. The packet is one of those that outstanding_tx counts.
unfoldable pub finish_txstatus : Msgbuf → ℕ → Option ℕ → Option (Option ℕ × Msgbuf)
finish_txstatus s flowid none = some (none, s)
finish_txstatus s flowid (some skb) =
    if ltb flowid s.flow.nrofrings
    then some (
      some skb,
      record s {
        txstatus_done_map = update s.txstatus_done_map flowid true;
        outstanding_tx = update s.outstanding_tx flowid (s.outstanding_tx flowid - 1);
        completed = s.completed ++ (skb ∷ []);
      },
    )
    else none

unfoldable pub process_txstatus : Msgbuf → ℕ → ℕ → Option (Option ℕ × Msgbuf)
process_txstatus s request_id flow_ring_id =
    let (skb, tx_pktids) = get_pktid s.tx_pktids (sub32 request_id 1) in
    finish_txstatus (record s { tx_pktids = tx_pktids }) (flowid_of flow_ring_id) skb

unfoldable pub process_flow_ring_create_response : Msgbuf → ℕ → ℕ → Option Msgbuf
process_flow_ring_create_response s status flow_ring_id =
    let flowid : ℕ = flowid_of flow_ring_id in
    if not (status == 0) then remove_flowring s flowid else do
      flow ← open_ring s.flow flowid
      some (schedule_txdata (record s { flow = flow }) flowid true)

unfoldable pub process_flow_ring_delete_response : Msgbuf → ℕ → ℕ → Option Msgbuf
process_flow_ring_delete_response s status flow_ring_id =
    let flowid : ℕ = flowid_of flow_ring_id in
    if status == 0
    then remove_flowring s flowid
    else do flow ← delete s.flow flowid; some (record s { flow = flow })

-- A flow ring with packets that were completed: it is scheduled if it is long, or if little of it
-- is at the device.
unfoldable pub trigger_one : Msgbuf → ℕ → Option Msgbuf
trigger_one s flowid = do
  n ← qlen s.flow flowid
  let few : Bool = ltb (s.outstanding_tx flowid) trickle_thrs
  if ltb trickle_thrs n || (not (n == 0) && few)
      then some (schedule_txdata s flowid true)
      else some s

-- The loop of brcmf_proto_msgbuf_rx_trigger over the map, from `flowid` on, `left` bits long.
unfoldable pub rx_trigger_each : ℕ → Msgbuf → ℕ → Option Msgbuf
rx_trigger_each zero s flowid = some s
rx_trigger_each (suc left) s flowid = do
  s1 ←
      if s.txstatus_done_map flowid
      then trigger_one (record s { txstatus_done_map = update s.txstatus_done_map flowid false })
          flowid
      else some s
  rx_trigger_each left s1 (flowid + 1)
