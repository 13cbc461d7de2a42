-- ===== src/Tests/Sending.antt =====
-- Transmission: msgbuf.c.
use omdrop_awdl.Prelude.{◌≡◌, ◌⊎◌, refl, true, false, some, none, [], ◌∷◌, ◌*◌, arith, enomem}
use omdrop_awdl.Pcie.{DeviceRing}
use omdrop_awdl.Flowring.Table.{
  attach, create, claim_entry, probe, first_null, add_ring, key, is_tdls_mac,
}
use omdrop_awdl.Flowring.Flow.{open_slot}
use omdrop_awdl.Msgbuf.Pktids.{init_pktids}
use omdrop_awdl.Msgbuf.Pktids.Ledger.{here, reached-IsSound}
use omdrop_awdl.Msgbuf.Tx.{Msgbuf, txflow, tx_queue_data}
use omdrop_awdl.Msgbuf.Tx.Headers.{Buffers}
use omdrop_awdl.Msgbuf.Tx.Moves.{Transmitted, txflow_moves}
use omdrop_awdl.Msgbuf.Tx.Queue.{Found, Made, Unchecked, tx_queue_data_ends}
use omdrop_awdl.Tests.Flows.{packet, loaded, loaded_ring, loaded_at, loaded-IsAccountable}

-- Buffers at fixed addresses.
abbrev pub buffers : Buffers
buffers = record { dma_map_single = λ i. some (i * 4096); len = λ i. 100; h_proto = λ i. 0x0800 }

-- An empty ring of eight slots.
abbrev pub empty : DeviceRing
empty = record {
  r_ptr = 0;
  w_ptr = 0;
  f_ptr = 0;
  depth = 8;
  item_len = 48;
  buf_addr = 1000;
  inited = true;
  was_full = false;
  ctx = record { up = true; dar = false; r_idx = 0; w_idx = 0; bells = [] };
}

-- A packet waits in the queue of ring 0.
abbrev pub waiting : Msgbuf
waiting = record {
  flow = loaded;
  tx_pktids = init_pktids 4;
  flowrings = λ i. empty;
  outstanding_tx = λ i. 0;
  flow_map = λ i. false;
  txstatus_done_map = λ i. false;
  completed = [];
  queued = 0;
  posted = [];
  control = empty;
  requested = [];
  dma = λ i. none;
  work_queue = [];
}

txflow_moves_example :
    (s' : Msgbuf) × (txflow buffers waiting 0 ≡ some s')
    × Transmitted buffers waiting s' 0 (packet ∷ [])
txflow_moves_example =
    txflow_moves buffers waiting 0 loaded_ring loaded_at refl loaded-IsAccountable
      (reached-IsSound 4 (init_pktids 4) (omega arith) (omega arith) here) tt (λ up. refl)

pub waiting_size : waiting.flow.nrofrings ≡ 2
unfolding create attach claim_entry probe first_null add_ring key is_tdls_mac open_slot
waiting_size = refl

tx_queue_data_ends_example :
    let result = tx_queue_data true true waiting 2 packet in
    Found waiting 2 packet result
    ⊎ Made waiting 2 packet result
    ⊎ (result ≡ some (enomem, waiting))
    ⊎ (Unchecked true true waiting 2 packet × (result ≡ none))
tx_queue_data_ends_example =
    tx_queue_data_ends true true waiting 2 packet (omega arith) (omega (arith, waiting_size))
      loaded-IsAccountable
