-- ===== src/Msgbuf/Tx/Headers.antt =====
-- msgbuf.c: the items that transmission writes to the rings.
use omdrop_awdl.Prelude.{ℕ, ◌+◌, ◌-◌, ◌*◌, ◌/◌, ◌%◌, ◌^◌, Option, none, some, u8, u16, u32}
use omdrop_awdl.Flowring.{Mac, Skb}

-- Of the buffer with a number: the address that dma_map_single gives it, if it succeeds, the length
-- of its packet, and the last two of the bytes of its Ethernet header.
pub record Buffers : Type 0 where
  pub dma_map_single : ℕ → Option ℕ
  pub len : ℕ → ℕ
  pub h_proto : ℕ → ℕ

-- `struct msgbuf_buf_addr`
pub record BufAddr : Type 0 where
  pub low_addr : ℕ
  pub high_addr : ℕ

-- A 64-bit address in two words.
abbrev pub buf_addr : ℕ → BufAddr
buf_addr address = record { low_addr = address % 2 ^ 32; high_addr = u32 (address / 2 ^ 32) }

-- `struct msgbuf_tx_msghdr` of the type MSGBUF_TYPE_TX_POST, with the slot that it is written to and
-- the packet that its fields `txhdr` and `data_buf_addr` come from. The metadata fields are 0.
pub record TxHeader : Type 0 where
  pub slot : ℕ
  pub skb : Skb
  pub request_id : ℕ
  pub ifidx : ℕ
  pub h_dest : Mac
  pub h_source : Mac
  pub h_proto : ℕ
  pub flags : ℕ
  pub seg_cnt : ℕ
  pub data_buf_addr : BufAddr
  pub data_len : ℕ

-- The address that alloc_pktid reports with an id.
abbrev pub mapped_to : Option ℕ → ℕ
mapped_to none = 0
mapped_to (some physaddr) = physaddr

unfoldable pub tx_header : Buffers → Skb → ℕ → ℕ → ℕ → TxHeader
tx_header buffers skb pktid ifidx slot = record {
  slot = slot;
  skb = skb;
  request_id = u32 (pktid + 1);
  ifidx = u8 ifidx;
  h_dest = skb.h_dest;
  h_source = skb.h_source;
  h_proto = buffers.h_proto skb.id;
  flags = 1 + skb.priority % 8 * 32;
  seg_cnt = 1;
  data_buf_addr = buf_addr (mapped_to (buffers.dma_map_single skb.id));
  data_len = u16 (buffers.len skb.id + 2 ^ 16 - 14);
}

-- `struct brcmf_msgbuf_work_item`
pub record WorkItem : Type 0 where
  pub flowid : ℕ
  pub ifidx : ℕ
  pub sa : Mac
  pub da : Mac

-- `struct msgbuf_tx_flowring_create_req`, with the slot that it is written to.
pub record CreateReq : Type 0 where
  pub slot : ℕ
  pub ifidx : ℕ
  pub request_id : ℕ
  pub tid : ℕ
  pub flow_ring_id : ℕ
  pub sa : Mac
  pub da : Mac
  pub flow_ring_addr : BufAddr
  pub max_items : ℕ
  pub len_item : ℕ

-- BRCMF_H2D_MSGRING_FLOWRING_IDSTART
abbrev pub id_start : ℕ
id_start = 2

unfoldable pub create_req : WorkItem → ℕ → ℕ → ℕ → ℕ → ℕ → CreateReq
create_req work class address max_items len_item slot = record {
  slot = slot;
  ifidx = u8 work.ifidx;
  request_id = 0;
  tid = u8 class;
  flow_ring_id = u16 (work.flowid + id_start);
  sa = work.sa;
  da = work.da;
  flow_ring_addr = buf_addr address;
  max_items = max_items;
  len_item = len_item;
}
