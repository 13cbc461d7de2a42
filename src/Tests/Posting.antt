-- ===== src/Tests/Posting.antt =====
-- The receive buffers of msgbuf.c.
use omdrop_awdl.Prelude.{◌+◌, refl, some, [], arith}
use omdrop_awdl.Msgbuf.Pktids.{init_pktids}
use omdrop_awdl.Msgbuf.Pktids.Ledger.{here, reached-IsSound}
use omdrop_awdl.Msgbuf.Post.{Pool, Posting, rxbuf_data_fill}
use omdrop_awdl.Msgbuf.Post.Level.{Filled, rxbuf_data_fill-Filled}
use omdrop_awdl.Tests.Sending.{empty}

-- Packets numbered from 70 on, each of which can be mapped.
abbrev pool : Pool
pool = record { get_skb = λ n. some (70 + n); dma_map_single = λ skb. some 4096 }

-- No buffer is posted yet.
abbrev fresh : Posting
fresh = record {
  ring = empty;
  rx_pktids = init_pktids 4;
  rx_metadata_offset = 0;
  posted = [];
  calls = 0;
  freed = [];
}

rxbuf_data_fill-Filled_example : Filled pool fresh 3 0 (rxbuf_data_fill pool fresh 3 0)
rxbuf_data_fill-Filled_example =
    rxbuf_data_fill-Filled pool fresh 3 0 (omega arith) (λ up. refl)
      (reached-IsSound 4 (init_pktids 4) (omega arith) (omega arith) here) tt (omega arith)
      (omega arith)
