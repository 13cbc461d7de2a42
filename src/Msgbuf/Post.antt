-- ===== src/Msgbuf/Post.antt =====
-- msgbuf.c: the receive buffers. The driver posts empty buffers to the device, under ids by which the
-- completions name them.
pub mod Filling
pub mod Full
pub mod Level
use omdrop_awdl.Prelude.{
  ℕ, zero, suc, ◌+◌, ◌-◌, ◌*◌, ◌/◌, ◌%◌, ◌^◌, Bool, true, false, not, ◌&&◌, Option, none, some,
  List, [], ◌∷◌, ◌++◌, ◌==◌, leb, ltb, u16, u32, sub32, if◌then◌else◌,
}
use omdrop_awdl.Commonring.{Commonring, reserve_for_write_multiple, write_cancel, write_complete}
use omdrop_awdl.Pcie.{RingMailbox, DeviceRing}
use omdrop_awdl.Pcie.Sharing.{host}
use omdrop_awdl.Msgbuf.Pktids.{Pktids, alloc_pktid, get_pktid}
use omdrop_awdl.Msgbuf.Tx.Headers.{BufAddr, buf_addr, mapped_to}

-- The types RXBUF_POST, EVENT_BUF_POST and IOCTLRESP_BUF_POST.
pub data BufType : Type 0 where
  rxbuf_post event_buf_post ioctlresp_buf_post : BufType

-- `struct msgbuf_rx_bufpost` and `struct msgbuf_rx_ioctl_resp_or_event`, with the slot that it is
-- written to and the packet whose buffer it is.
pub record BufPost : Type 0 where
  pub slot : ℕ
  pub skb : ℕ
  pub msgtype : BufType
  pub request_id : ℕ
  pub metadata_buf_len : ℕ
  pub metadata_buf_addr : BufAddr
  pub data_buf_len : ℕ
  pub data_buf_addr : BufAddr

-- What the n-th call of brcmu_pkt_buf_get_skb returns, if it succeeds, and the address that
-- dma_map_single gives the buffer of a packet, if it succeeds.
pub record Pool : Type 0 where
  pub get_skb : ℕ → Option ℕ
  pub dma_map_single : ℕ → Option ℕ

-- What posting uses of `struct brcmf_msgbuf`: a submission ring, and the posts written to it, in
-- order. `calls` are the calls of brcmu_pkt_buf_get_skb so far, and `freed` the packets freed.
pub record Posting : Type 0 where
  pub ring : DeviceRing
  pub rx_pktids : Pktids
  pub rx_metadata_offset : ℕ
  pub posted : List BufPost
  pub calls : ℕ
  pub freed : List ℕ

-- The length of a packet after skb_pull, which refuses to pull more than there is.
abbrev pub pulled : ℕ → ℕ → ℕ
pulled len offset = if ltb len offset then len else len - offset

-- A post of a packet of `len` bytes, whose first `offset` bytes are for metadata.
unfoldable pub buf_post : BufType → ℕ → ℕ → ℕ → ℕ → ℕ → ℕ → BufPost
buf_post msgtype len offset skb pktid physaddr slot = record {
  slot = slot;
  skb = skb;
  msgtype = msgtype;
  request_id = u32 pktid;
  metadata_buf_len = u16 offset;
  metadata_buf_addr = buf_addr (if offset == 0 then 0 else physaddr);
  data_buf_len = u16 (pulled len offset);
  data_buf_addr = buf_addr (physaddr + offset);
}

-- With the id that alloc_pktid returns; whether the loop goes on is returned.
unfoldable pub post_skb : BufType → ℕ → ℕ → Pool → Posting → ℕ → ℕ → Option ℕ → Bool × Posting
post_skb msgtype len offset pool s slot skb none =
    (false, record s { freed = s.freed ++ (skb ∷ []) })
post_skb msgtype len offset pool s slot skb (some pktid) = (
  true,
  record s {
    posted =
        s.posted
        ++ (buf_post msgtype len offset skb pktid (mapped_to (pool.dma_map_single skb)) slot ∷ []);
  },
)

-- With the packet that brcmu_pkt_buf_get_skb returns.
unfoldable pub post_one : BufType → ℕ → ℕ → Pool → Posting → ℕ → Option ℕ → Bool × Posting
post_one msgtype len offset pool s slot none = (false, s)
post_one msgtype len offset pool s slot (some skb) =
    let (pktid, rx_pktids) = alloc_pktid s.rx_pktids skb 0 (pool.dma_map_single skb) in
    post_skb msgtype len offset pool (record s { rx_pktids = rx_pktids }) slot skb pktid

-- The loop over the slots that were reserved, `left` of them; the number of buffers posted.
unfoldable pub post_slots : ℕ → BufType → ℕ → ℕ → Pool → Posting → ℕ → ℕ × Posting
post_slots zero msgtype len offset pool s slot = (0, s)
post_slots (suc left) msgtype len offset pool s slot =
    let (go, s1) =
      post_one msgtype len offset pool (record s { calls = s.calls + 1 }) slot
        (pool.get_skb s.calls) in
    let (count, s2) = post_slots left msgtype len offset pool s1 (slot + s.ring.item_len) in
    if go then (count + 1, s2) else (0, s1)

-- The slots that were not used are cancelled when the loop breaks, and the others are completed.
unfoldable pub close_slots : ℕ → ℕ × Posting → DeviceRing → ℕ × Posting
close_slots alloced (count, s) ring =
    let ring1 : DeviceRing =
      if count == alloced then ring else (write_cancel (host ring) (alloced - count)).ring in
    let ring2 : DeviceRing = if count == 0 then ring1 else (write_complete (host ring1)).1.ring in
    (count, record s { ring = ring2 })

unfoldable pub post_reserved :
    BufType → ℕ → ℕ → Pool → Posting → Option (ℕ × ℕ) → Commonring RingMailbox → ℕ × Posting
post_reserved msgtype len offset pool s none r = (0, record s { ring = r.ring })
post_reserved msgtype len offset pool s (some (slot, alloced)) r =
    close_slots alloced (post_slots alloced msgtype len offset pool s slot) r.ring

-- The parameter of brcmf_commonring_reserve_for_write_multiple is a `u16`.
unfoldable pub post_bufs : BufType → ℕ → ℕ → Pool → Posting → ℕ → ℕ × Posting
post_bufs msgtype len offset pool s count =
    let (slots, r) = reserve_for_write_multiple (host s.ring) (u16 count) in
    post_reserved msgtype len offset pool s slots r

-- BRCMF_MSGBUF_MAX_PKT_SIZE and BRCMF_MSGBUF_MAX_CTL_PKT_SIZE
abbrev pub max_pkt_size : ℕ
max_pkt_size = 2048

abbrev pub max_ctl_pkt_size : ℕ
max_ctl_pkt_size = 8192

-- On the ring RXPOST_SUBMIT.
unfoldable pub rxbuf_data_post : Pool → Posting → ℕ → ℕ × Posting
rxbuf_data_post pool s count = post_bufs rxbuf_post max_pkt_size s.rx_metadata_offset pool s count

-- On the ring CONTROL_SUBMIT.
unfoldable pub rxbuf_ctrl_post : Pool → Posting → Bool → ℕ → ℕ × Posting
rxbuf_ctrl_post pool s event_buf count =
    post_bufs (if event_buf then event_buf_post else ioctlresp_buf_post) max_ctl_pkt_size 0 pool s
      count

-- The loop of rxbuf_data_fill: the buffers at the device, and the state.
unfoldable pub fill_rounds : ℕ → Pool → Posting → ℕ → ℕ → ℕ × Posting
fill_rounds zero pool s rxbufpost fillbufs = (rxbufpost, s)
fill_rounds (suc rounds) pool s rxbufpost fillbufs =
    let (retcount, s1) = rxbuf_data_post pool s fillbufs in
    let rest : ℕ × Posting =
      fill_rounds rounds pool s1 (u32 (rxbufpost + retcount)) (sub32 fillbufs retcount) in
    if fillbufs == 0 then (rxbufpost, s) else if retcount == 0 then (rxbufpost, s1) else rest

-- Each round posts a buffer: one round for each that is missing, and one that finds none missing.
unfoldable pub rxbuf_data_fill : Pool → Posting → ℕ → ℕ → ℕ × Posting
rxbuf_data_fill pool s max_rxbufpost rxbufpost =
    fill_rounds (sub32 max_rxbufpost rxbufpost + 1) pool s rxbufpost (sub32 max_rxbufpost rxbufpost)

-- BRCMF_MSGBUF_RXBUFPOST_THRESHOLD
abbrev pub threshold : ℕ
threshold = 32

unfoldable pub update_rxbufpost_count : Pool → Posting → ℕ → ℕ → ℕ → ℕ × Posting
update_rxbufpost_count pool s max_rxbufpost rxbufpost rxcnt =
    let left : ℕ = sub32 rxbufpost rxcnt in
    if leb left (sub32 max_rxbufpost threshold)
    then rxbuf_data_fill pool s max_rxbufpost left
    else (left, s)

-- The buffers for answers to ioctls, and those for events: as many as are missing.
unfoldable pub rxbuf_ioctlresp_post : Pool → Posting → ℕ → ℕ → ℕ × Posting
rxbuf_ioctlresp_post pool s max_ioctlrespbuf cur_ioctlrespbuf =
    let (count, s1) = rxbuf_ctrl_post pool s false (sub32 max_ioctlrespbuf cur_ioctlrespbuf) in
    (u32 (cur_ioctlrespbuf + count), s1)

unfoldable pub rxbuf_event_post : Pool → Posting → ℕ → ℕ → ℕ × Posting
rxbuf_event_post pool s max_eventbuf cur_eventbuf =
    let (count, s1) = rxbuf_ctrl_post pool s true (sub32 max_eventbuf cur_eventbuf) in
    (u32 (cur_eventbuf + count), s1)
