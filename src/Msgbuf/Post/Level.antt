-- ===== src/Msgbuf/Post/Level.antt =====
-- msgbuf.c: brcmf_msgbuf_rxbuf_data_fill, the rounds of posting.
use mathlib.Core.List.{append-nil}
use omdrop_awdl.Prelude.{
  ℕ, zero, suc, ◌+◌, ◌-◌, ◌^◌, ◌≤◌, ◌<◌, ◌≡◌, ◌⊎◌, inl, inr, sym, true, List, [], ◌++◌, ◌==◌,
  length, length-append, arith, Bool-cases, u32, sub32,
}
use omdrop_awdl.Pcie.Sharing.{IsSafe, Reach, here, Reach-IsSafe, Reach-trans}
use omdrop_awdl.Msgbuf.Pktids.Ledger.{IsSound}
use omdrop_awdl.Msgbuf.Tx.Ring.{IsPublished}
use omdrop_awdl.Msgbuf.Post.{
  BufPost, Pool, Posting, rxbuf_post, max_pkt_size, rxbuf_data_post, fill_rounds, rxbuf_data_fill,
}
use omdrop_awdl.Msgbuf.Post.Filling.{AllHeld, Starved, Supply, no_call, Supply-append, appended}
use omdrop_awdl.Msgbuf.Post.Full.{post_bufs-Round}

-- What filling does to the state and to the count of the buffers at the device.
pub record Filled (pool : Pool) (s : Posting) (max_rxbufpost before : ℕ) (result : ℕ × Posting)
    : Type 0 where
  pub at_most : result.0 ≤ max_rxbufpost
  pub more : List BufPost
  pub added : result.1.posted ≡ s.posted ++ more
  pub counted : before + length more ≡ result.0
  pub frees_more : List ℕ
  pub freed_more : result.1.freed ≡ s.freed ++ frees_more
  pub supplied : Supply pool s.calls result.1.calls more frees_more
  pub sound : IsSound result.1.rx_pktids
  pub held : AllHeld result.1.rx_pktids result.1.posted
  pub reached : Reach s.ring result.1.ring
  pub published : IsPublished result.1.ring
  pub stopped : (result.0 ≡ max_rxbufpost) ⊎ (result.1.ring.was_full ≡ true) ⊎ Starved pool result.1

fill_rounds-Filled :
    (rounds : ℕ) (pool : Pool) (s : Posting) (max_rxbufpost rxbufpost fillbufs : ℕ)
    → IsSafe s.ring
    → IsPublished s.ring
    → IsSound s.rx_pktids
    → AllHeld s.rx_pktids s.posted
    → max_rxbufpost < 2 ^ 16
    → rxbufpost + fillbufs ≡ max_rxbufpost
    → fillbufs < rounds
    → Filled pool s max_rxbufpost rxbufpost (fill_rounds rounds pool s rxbufpost fillbufs)
unfolding fill_rounds rxbuf_data_post
fill_rounds-Filled zero pool s max_rxbufpost rxbufpost fillbufs safe published sound held short e
      lt =
    absurd (omega arith)
fill_rounds-Filled (suc rounds) pool s max_rxbufpost rxbufpost fillbufs safe published sound held
      short e lt =
    elim (Bool-cases (fillbufs == 0)) [
      | inl none_missing ↦ rw none_missing (record {
        at_most = omega arith;
        more = [];
        added = sym (append-nil s.posted);
        counted = omega arith;
        frees_more = [];
        freed_more = sym (append-nil s.freed);
        supplied = no_call;
        sound = sound;
        held = held;
        reached = here;
        published = published;
        stopped = inl (ground arith);
      })
      | inr missing ↦
          let r =
            post_bufs-Round rxbuf_post max_pkt_size s.rx_metadata_offset pool s fillbufs safe
              published sound held (ground arith) (omega arith) in
          let (count, s1) = rxbuf_data_post pool s fillbufs in
          elim (Bool-cases (count == 0)) [
            | inl stuck ↦
                rw (missing, stuck)
                  (record {
                    at_most = omega arith;
                    more = r.more;
                    added = r.added;
                    counted = ground (arith, r.as_many);
                    frees_more = r.frees_more;
                    freed_more = r.freed_more;
                    supplied = r.supplied;
                    sound = r.sound;
                    held = r.held;
                    reached = r.reached;
                    published = r.published;
                    stopped = inr (r.stopped (ground arith));
                  })
            | inr on ↦
                let up : u32 (rxbufpost + count) ≡ rxbufpost + count = omega (arith, r.at_most) in
                let down : sub32 fillbufs count ≡ fillbufs - count = omega (arith, r.at_most) in
                let rest =
                  fill_rounds-Filled rounds pool s1 max_rxbufpost (u32 (rxbufpost + count))
                    (sub32 fillbufs count) (Reach-IsSafe r.reached safe) r.published r.sound r.held
                    short (omega (arith, up, down, r.at_most)) (ground (arith, down, r.at_most)) in
                rw (missing, on)
                  (record {
                    at_most = rest.at_most;
                    more = r.more ++ rest.more;
                    added = appended s.posted r.more rest.more r.added rest.added;
                    frees_more = r.frees_more ++ rest.frees_more;
                    freed_more =
                        appended s.freed r.frees_more rest.frees_more r.freed_more rest.freed_more;
                    supplied = Supply-append r.supplied rest.supplied;
                    counted =
                        omega (arith, length-append r.more rest.more, r.as_many, rest.counted, up);
                    sound = rest.sound;
                    held = rest.held;
                    reached = Reach-trans r.reached rest.reached;
                    published = rest.published;
                    stopped = rest.stopped;
                  })
          ]
    ]

-- From a safe ring whose posts the device sees, with sound packet ids under which all posted
-- buffers are held, and no more than the maximum at the device, which is less than 2 ^ 16,
-- rxbuf_data_fill adds posts at the end, counts each of them, and does not exceed the maximum. Of
-- the packets that its calls of brcmu_pkt_buf_get_skb return, each is posted or freed, once and in
-- order. All posted buffers are held under ids in use, the ring goes through steps that host and
-- device may take, and the device sees the posts while the bus is up. It stops short of the maximum
-- only if the ring is marked as full, or if the last of these calls has returned no packet, or one
-- that cannot be mapped or finds every id in use.
pub rxbuf_data_fill-Filled :
    (pool : Pool) (s : Posting) (max_rxbufpost rxbufpost : ℕ)
    → IsSafe s.ring
    → IsPublished s.ring
    → IsSound s.rx_pktids
    → AllHeld s.rx_pktids s.posted
    → max_rxbufpost < 2 ^ 16
    → rxbufpost ≤ max_rxbufpost
    → Filled pool s max_rxbufpost rxbufpost (rxbuf_data_fill pool s max_rxbufpost rxbufpost)
unfolding rxbuf_data_fill
rxbuf_data_fill-Filled pool s max_rxbufpost rxbufpost safe published sound held short le =
    fill_rounds-Filled (sub32 max_rxbufpost rxbufpost + 1) pool s max_rxbufpost rxbufpost
      (sub32 max_rxbufpost rxbufpost) safe published sound held short (omega arith) (omega arith)
