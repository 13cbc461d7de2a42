-- ===== src/Tests/Answers.antt =====
-- The messages of the device that msgbuf.c handles.
use omdrop_awdl.Prelude.{◌≡◌, ◌+◌, refl, true, some, none, [], ◌∷◌, ◌++◌, arith}
use omdrop_awdl.Msgbuf.Pktids.{init_pktids, alloc_pktid, find_free, fill}
use omdrop_awdl.Msgbuf.Pktids.Ledger.{here, step, allocs, reached-IsSound}
use omdrop_awdl.Msgbuf.Tx.{Msgbuf}
use omdrop_awdl.Msgbuf.Tx.Named.{IsNamed}
use omdrop_awdl.Msgbuf.Tx.Headers.{TxHeader, tx_header, id_start}
use omdrop_awdl.Msgbuf.Completions.{process_txstatus}
use omdrop_awdl.Msgbuf.Completions.Status.{process_txstatus-post}
use omdrop_awdl.Tests.Flows.{packet}
use omdrop_awdl.Tests.Ids.{four}
use omdrop_awdl.Tests.Sending.{waiting, buffers, waiting_size}

-- One packet is at the device: number 50, under the second of four ids.
abbrev sent : Msgbuf
sent = record waiting { tx_pktids = four; outstanding_tx = λ i. 1 }

abbrev its_header : TxHeader
its_header = tx_header buffers (record packet { id = 50 }) 1 0 1000

its_header-IsNamed : IsNamed four its_header
unfolding tx_header alloc_pktid init_pktids find_free fill
its_header-IsNamed = record {
  idx = 1;
  idx_in = omega arith;
  id = refl;
  busy = refl;
  its_skb = refl;
}

process_txstatus-post_example :
    (s' : Msgbuf) × (process_txstatus sent its_header.request_id (0 + id_start)
      ≡ some (some its_header.skb.id, s'))
    × (s'.completed ≡ sent.completed ++ (its_header.skb.id ∷ []))
    × (s'.outstanding_tx 0 + 1 ≡ sent.outstanding_tx 0)
    × (s'.txstatus_done_map 0 ≡ true)
    × (process_txstatus s' its_header.request_id (0 + id_start) ≡ some (none, s'))
process_txstatus-post_example =
    process_txstatus-post sent its_header 0
      (reached-IsSound 4 four (omega arith) (omega arith) (step here (allocs 50 0 (some 4096))))
      its_header-IsNamed (omega (arith, waiting_size)) (omega (arith, waiting_size)) (omega arith)
