-- ===== src/Msgbuf/Completions/Status.antt =====
-- msgbuf.c: the status of a packet that was posted.
use omdrop_awdl.Prelude.{
  ℕ, ◌+◌, ◌-◌, ◌^◌, ◌<◌, ◌≡◌, refl, true, false, none, some, [], ◌∷◌, ◌++◌, ltb, leb, update, arith,
  sub32,
}
use omdrop_awdl.Msgbuf.Pktids.{freed, get_pktid}
use omdrop_awdl.Msgbuf.Pktids.Ledger.{IsSound}
use omdrop_awdl.Msgbuf.Tx.{Msgbuf}
use omdrop_awdl.Msgbuf.Tx.Headers.{TxHeader, id_start}
use omdrop_awdl.Msgbuf.Tx.Named.{IsNamed}
use omdrop_awdl.Msgbuf.Completions.{flowid_of, finish_txstatus, process_txstatus}

-- With sound packet ids, the status of a header whose packet is held under its id, on a flow ring
-- that exists and counts a packet at the device, with less than 0xfffe flow rings, gives back that
-- packet. It is the last of those completed, the count of the ring goes down by one, and the ring
-- is marked. The same status once more gives nothing and changes nothing.
pub process_txstatus-post :
    (s : Msgbuf) (h : TxHeader) (flowid : ℕ)
    → IsSound s.tx_pktids
    → IsNamed s.tx_pktids h
    → flowid < s.flow.nrofrings
    → s.flow.nrofrings < 2 ^ 16 - 2
    → 0 < s.outstanding_tx flowid
    → (s' : Msgbuf) × (process_txstatus s h.request_id (flowid + id_start)
        ≡ some (some h.skb.id, s'))
      × (s'.completed ≡ s.completed ++ (h.skb.id ∷ []))
      × (s'.outstanding_tx flowid + 1 ≡ s.outstanding_tx flowid)
      × (s'.txstatus_done_map flowid ≡ true)
      × (process_txstatus s' h.request_id (flowid + id_start) ≡ some (none, s'))
unfolding process_txstatus finish_txstatus get_pktid
process_txstatus-post s h flowid sound v flowid_in small counted =
    let idx : sub32 h.request_id 1 ≡ v.idx = omega (arith, v.id, v.idx_in, sound.fits) in
    let its : flowid_of (flowid + id_start) ≡ flowid = omega arith in
    let inside : leb s.tx_pktids.array_size v.idx ≡ false = ground (arith, v.idx_in) in
    let ring_in : ltb flowid s.flow.nrofrings ≡ true = ground arith in
    let gone : (update s.tx_pktids.array v.idx
          (record (s.tx_pktids.array v.idx) { allocated = false }) v.idx).allocated
        ≡ false =
      ground arith in
    (
      record s {
        tx_pktids = freed s.tx_pktids v.idx;
        txstatus_done_map = update s.txstatus_done_map flowid true;
        outstanding_tx = update s.outstanding_tx flowid (s.outstanding_tx flowid - 1);
        completed = s.completed ++ (h.skb.id ∷ []);
      },
      rw (idx, its) (rw inside (rw v.busy (rw ring_in (rw v.its_skb refl)))),
      refl,
      ground arith,
      ground arith,
      rw (idx, its) (rw inside (rw gone refl)),
    )
