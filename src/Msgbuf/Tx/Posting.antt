-- ===== src/Msgbuf/Tx/Posting.antt =====
-- msgbuf.c: one packet of the transmission loop.
use omdrop_awdl.Prelude.{
  ℕ, ◌+◌, ◌<◌, ◌≡◌, ◌⊎◌, inl, inr, refl, ◌∙◌, ap, sym, Bool, true, Option, none, some, [], ◌∷◌,
  ◌++◌, arith, update_self, u32, leb, Bool-cases, ◌>>=◌,
}
use omdrop_awdl.Commonring.{Commonring, reserve_for_write, write_complete}
use omdrop_awdl.Pcie.{RingMailbox}
use omdrop_awdl.Pcie.Sharing.{host, Reach, here, next, Step}
use omdrop_awdl.Flowring.{Skb, FlowRing, ring_at}
use omdrop_awdl.Flowring.Flow.{ifidx_of, ifidx_get}
use omdrop_awdl.Msgbuf.Pktids.{Pktids, get_pktid}
use omdrop_awdl.Msgbuf.Pktids.Ledger.{IsSound, alloc_pktid-IsSound, get_pktid-IsSound}
use omdrop_awdl.Msgbuf.Tx.{
  Msgbuf, set_flowring, post, place, put_back, submit, transmit, flush_cnt2, eth_hlen,
}
use omdrop_awdl.Msgbuf.Tx.Headers.{Buffers, TxHeader, tx_header}
use omdrop_awdl.Msgbuf.Tx.Ring.{IsPublished, write_complete-IsPublished, reserve-none}
use omdrop_awdl.Msgbuf.Tx.Named.{
  AllNamed, AllNamed-kept, AllNamed-append, NoId, Given, alloc_pktid-cases,
}

-- Between two rounds: each posted header names its packet, and a count of 0 says that the device
-- sees all of the ring.
pub record IsReady (s : Msgbuf) (flowid count : ℕ) : Type 0 where
  pub sound : IsSound s.tx_pktids
  pub named : AllNamed s.tx_pktids s.posted
  pub low : count < flush_cnt2
  pub pending : count ≡ 0 → IsPublished (s.flowrings flowid)

-- Why the packet `skb` is not posted.
abbrev pub Reason : Buffers → Msgbuf → ℕ → Skb → Type 0
Reason buffers s flowid skb =
    NoId s.tx_pktids (buffers.dma_map_single skb.id) ⊎ ((s.flowrings flowid).was_full ≡ true)

pub record Refused (buffers : Buffers) (s s' : Msgbuf) (flowid count : ℕ) (skb : Skb) : Type 0 where
  pub same_flow : s'.flow ≡ s.flow
  pub same_posted : s'.posted ≡ s.posted
  pub ready : IsReady s' flowid count
  pub reached : Reach (s.flowrings flowid) (s'.flowrings flowid)
  pub reason : Reason buffers s' flowid skb

pub record Sent (s s' : Msgbuf) (flowid count : ℕ) (skb : Skb) : Type 0 where
  pub same_flow : s'.flow ≡ s.flow
  pub header : TxHeader
  pub its_skb : header.skb ≡ skb
  pub posted_next : s'.posted ≡ s.posted ++ (header ∷ [])
  pub ready : IsReady s' flowid count
  pub reached : Reach (s.flowrings flowid) (s'.flowrings flowid)

module _ (buffers : Buffers) (s : Msgbuf) (flowid count : ℕ) (skb : Skb) where
  -- The state with the slot reserved.
  post_lem :
      (pktid ifidx slot : ℕ) (s0 : Msgbuf)
      → s.flow ≡ s0.flow
      → s.posted ≡ s0.posted
      → Reach (s0.flowrings flowid) (s.flowrings flowid)
      → IsSound s.tx_pktids
      → AllNamed s.tx_pktids s.posted
      → count < flush_cnt2
      → pktid < s.tx_pktids.array_size
      → (s.tx_pktids.array pktid).allocated ≡ true
      → (s.tx_pktids.array pktid).skb ≡ skb.id
      → let (count', s') = post buffers s flowid count skb pktid ifidx slot in
        Sent s0 s' flowid count' skb
  unfolding post tx_header
  post_lem pktid ifidx slot s0 same_flow same_posted reached sound named low idx_in busy its_skb =
      let h = tx_header buffers skb pktid ifidx slot in
      let named' = AllNamed-append s.tx_pktids s.posted h named (record {
        idx = pktid;
        idx_in = idx_in;
        id = omega (arith, sound.fits);
        busy = busy;
        its_skb = its_skb;
      }) in
      let self =
        update_self s.flowrings flowid (write_complete (host (s.flowrings flowid))).1.ring in
      elim (Bool-cases (leb flush_cnt2 (u32 (count + 1)))) [
        | inl done ↦ rw done (record {
          same_flow = same_flow;
          header = h;
          its_skb = refl;
          posted_next = ap (λ p. p ++ (h ∷ [])) same_posted;
          ready = record {
            sound = sound;
            named = named';
            low = omega arith;
            pending = λ _. rw self (write_complete-IsPublished (s.flowrings flowid));
          };
          reached = rw self (next reached Step.complete);
        })
        | inr more ↦ rw more (record {
          same_flow = same_flow;
          header = h;
          its_skb = refl;
          posted_next = ap (λ p. p ++ (h ∷ [])) same_posted;
          ready = record {
            sound = sound;
            named = named';
            low = ground arith;
            pending = λ e. absurd (ground arith);
          };
          reached = reached;
        })
      ]

-- What either end of a round is.
abbrev pub Round : Buffers → Msgbuf → ℕ → ℕ → Skb → Option (Bool × (ℕ × Msgbuf)) → Type 0
Round buffers s flowid count skb result =
    ((s' : Msgbuf) × (result ≡ put_back s' flowid skb count)
      × Refused buffers s s' flowid count skb)
    ⊎ ((count' : ℕ) × (s' : Msgbuf) × (result ≡ some (true, (count', s')))
        × Sent s s' flowid count' skb)

module _ (buffers : Buffers) (s : Msgbuf) (flowid count : ℕ) (skb : Skb) (ring : FlowRing)
    (at : ring_at s.flow flowid ≡ some ring) (v : IsReady s flowid count) where
  -- With an id, and the slot that is reserved or not.
  place_lem :
      (pktid : ℕ) (slot : Option ℕ) (r : Commonring RingMailbox) (pktids : Pktids)
      → Given s.tx_pktids pktids skb.id pktid
      → IsSound pktids
      → reserve_for_write (host (s.flowrings flowid)) ≡ (slot, r)
      → Round buffers s flowid count skb (
          place buffers
            (set_flowring (record s { tx_pktids = pktids }) flowid r)
            flowid
            count
            skb
            pktid
            slot)
  unfolding place ifidx_get
  place_lem pktid none r pktids given sound e =
      let moved = update_self s.flowrings flowid r.ring ∙ sym (ap (λ p. p.1.ring) e) in
      let (full, still) = reserve-none (s.flowrings flowid) (ap (λ p. p.0) e) in
      inl (
        set_flowring (record s { tx_pktids = (get_pktid pktids pktid).1 }) flowid r,
        refl,
        record {
          same_flow = refl;
          same_posted = refl;
          ready = record {
            sound = get_pktid-IsSound pktids pktid sound;
            named = AllNamed-kept _ _ _ given.keeps_back v.named;
            low = v.low;
            pending = λ z. rw moved (still (v.pending z));
          };
          reached = rw moved (next here Step.reserve);
          reason = inr (ap (λ r. r.was_full) moved ∙ full);
        },
      )
  place_lem pktid (some slot) r pktids given sound e =
      let moved = update_self s.flowrings flowid r.ring ∙ sym (ap (λ p. p.1.ring) e) in
      let s0 : Msgbuf = set_flowring (record s { tx_pktids = pktids }) flowid r in
      inr (
        _,
        _,
        ap
            (λ o.
              o
              >>= (λ ring. some (ifidx_of s.flow ring))
              >>= (λ ifidx. some (true, post buffers s0 flowid count skb pktid ifidx slot)))
            at,
        post_lem buffers s0 flowid count skb pktid _ slot s refl refl
            (rw moved (next here Step.reserve)) sound (AllNamed-kept _ _ _ given.keeps v.named)
            v.low given.idx_in given.busy given.its_skb,
      )

  -- A round with a packet.
  pub transmit_lem : Round buffers s flowid count skb (transmit buffers s flowid count (some skb))
  unfolding transmit submit
  transmit_lem =
      let physaddr = buffers.dma_map_single skb.id in
      elim (alloc_pktid-cases s.tx_pktids skb.id eth_hlen physaddr v.sound) [
        | inl (e, why) ↦ inl (
          s,
          rw e refl,
          record {
            same_flow = refl;
            same_posted = refl;
            ready = v;
            reached = here;
            reason = inl why;
          },
        )
        | inr (pktid, pktids, e, given) ↦ rw e (
            place_lem pktid _ _ pktids given
              (rw (ap (λ p. p.1) e) at
                (alloc_pktid-IsSound s.tx_pktids skb.id eth_hlen physaddr v.sound))
              refl)
      ]
