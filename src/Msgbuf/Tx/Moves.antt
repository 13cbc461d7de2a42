-- ===== src/Msgbuf/Tx/Moves.antt =====
-- brcmf_msgbuf_txflow as a whole, from the check for space to the completion at its end.
use omdrop_awdl.Prelude.{
  ℕ, ◌+◌, ◌≡◌, ◌⊎◌, inl, inr, refl, ◌∙◌, ap, true, some, List, [], ◌∷◌, ◌++◌, ◌==◌, length, arith,
  update_self, Bool-cases, if◌then◌else◌,
}
use omdrop_awdl.Commonring.{write_available, write_complete}
use omdrop_awdl.Pcie.Sharing.{host, Reach, here, next, Step}
use omdrop_awdl.Flowring.{Skb, FlowRing, is_open, ring_at}
use omdrop_awdl.Flowring.Flow.Stop.{IsAccountable}
use omdrop_awdl.Msgbuf.Pktids.Ledger.{IsSound}
use omdrop_awdl.Msgbuf.Tx.{Msgbuf, set_flowring, complete, txflow}
use omdrop_awdl.Msgbuf.Tx.Headers.{Buffers}
use omdrop_awdl.Msgbuf.Tx.Ring.{
  IsPublished, write_complete-IsPublished, write_complete-was_full, check-false, check-IsPublished,
}
use omdrop_awdl.Msgbuf.Tx.Named.{AllNamed, NoId}
use omdrop_awdl.Msgbuf.Tx.Posting.{Reason}
use omdrop_awdl.Msgbuf.Tx.Rounds.{sent, Moved, Moved-from, qlen-open, tx_rounds_lem}

-- What a call of txflow keeps and reaches.
pub record Transmitted (buffers : Buffers) (s s' : Msgbuf) (flowid : ℕ) (queue : List Skb)
    : Type 0 where
  pub ring : FlowRing
  pub at : ring_at s'.flow flowid ≡ some ring
  pub order : sent s' ++ ring.skblist ≡ sent s ++ queue
  pub stopped :
      (ring.skblist ≡ [])
      ⊎ ((s'.flowrings flowid).was_full ≡ true)
      ⊎ ((skb : Skb) × (skbs : List Skb) × (ring.skblist ≡ skb ∷ skbs)
          × NoId s'.tx_pktids (buffers.dma_map_single skb.id))
  pub accountable : IsAccountable s'.flow
  pub sound : IsSound s'.tx_pktids
  pub named : AllNamed s'.tx_pktids s'.posted
  pub reached : Reach (s.flowrings flowid) (s'.flowrings flowid)
  pub published : IsPublished (s'.flowrings flowid)

why {ℓ} :
    {Full : Type ℓ} (buffers : Buffers) (s : Msgbuf) (flowid : ℕ) (queue : List Skb)
    → ((s.flowrings flowid).was_full ≡ true → Full)
    → ((queue ≡ [])
        ⊎ ((skb : Skb) × (skbs : List Skb) × (queue ≡ skb ∷ skbs) × Reason buffers s flowid skb))
    → (queue ≡ [])
      ⊎ Full
      ⊎ ((skb : Skb) × (skbs : List Skb) × (queue ≡ skb ∷ skbs)
          × NoId s.tx_pktids (buffers.dma_map_single skb.id))
why buffers s flowid queue full (inl d) = inl d
why buffers s flowid queue full (inr (skb, skbs, e, inl refused)) =
    inr (inr (skb, skbs, e, refused))
why buffers s flowid queue full (inr (skb, skbs, e, inr f)) = inr (inl (full f))

-- The end of the loop: all that the count says is not yet seen by the device is completed.
finish_lem :
    (buffers : Buffers) (s s2 : Msgbuf) (flowid count : ℕ) (queue : List Skb)
    → Moved buffers (s.flowrings flowid) (sent s ++ queue) s2 flowid count
    → Transmitted buffers s (if count == 0 then s2 else complete s2 flowid) flowid queue
finish_lem buffers s s2 flowid count queue m = elim (Bool-cases (count == 0)) [
  | inl e ↦ rw e (record {
    ring = m.ring;
    at = m.at;
    order = m.order;
    stopped = why buffers s2 flowid m.ring.skblist (λ f. f) m.stopped;
    accountable = m.accountable;
    sound = m.ready.sound;
    named = m.ready.named;
    reached = m.reached;
    published = m.ready.pending (ground arith);
  })
  | inr e ↦
      let self =
        update_self s2.flowrings flowid (write_complete (host (s2.flowrings flowid))).1.ring in
      rw e (record {
        ring = m.ring;
        at = m.at;
        order = m.order;
        stopped =
            why buffers s2 flowid m.ring.skblist
              (λ f. ap (λ r. r.was_full) self ∙ (write_complete-was_full (s2.flowrings flowid) ∙ f))
              m.stopped;
        accountable = m.accountable;
        sound = m.ready.sound;
        named = m.ready.named;
        reached = rw self (next m.reached Step.complete);
        published = rw self (write_complete-IsPublished (s2.flowrings flowid));
      })
]

module _ (buffers : Buffers) (s : Msgbuf) (flowid : ℕ) (ring : FlowRing) where
  -- A call of txflow on an open flow ring, from an accountable state with sound packet ids, ends
  -- and does not fault. The packets posted so far followed by the queue are the same list before
  -- and after, so packets are posted in the order of the queue and none is lost or doubled. Each
  -- posted header names its packet by an id in use, if each did before. The submission ring goes
  -- through steps that host and device may take, and at the end, while the bus is up, the device
  -- sees all that is reserved, if it did before. A packet is left in the queue only if the ring is
  -- marked as full, or the first one left has no id: its buffer cannot be mapped, or every id is in
  -- use.
  pub txflow_moves :
      ring_at s.flow flowid ≡ some ring
      → is_open ring.status ≡ true
      → IsAccountable s.flow
      → IsSound s.tx_pktids
      → AllNamed s.tx_pktids s.posted
      → IsPublished (s.flowrings flowid)
      → (s' : Msgbuf) × (txflow buffers s flowid ≡ some s')
        × Transmitted buffers s s' flowid ring.skblist
  unfolding txflow
  txflow_moves at op acc sound named published =
      let start = s.flowrings flowid in
      let r = (write_available (host start)).1 in
      let s1 : Msgbuf = set_flowring s flowid r in
      let self = update_self s.flowrings flowid r.ring in
      elim (Bool-cases (write_available (host start)).0) [
        | inr busy ↦ (
          s1,
          rw busy refl,
          record {
            ring = ring;
            at = at;
            order = refl;
            stopped = inr (inl (ap (λ r. r.was_full) self ∙ check-false start busy));
            accountable = acc;
            sound = sound;
            named = named;
            reached = rw self (next here Step.check);
            published = rw self (check-IsPublished start published);
          },
        )
        | inl room ↦
            let (count, s2, e, moved) =
              tx_rounds_lem (length ring.skblist + 1) buffers s1 flowid 64 ring ring.skblist refl at
                op acc
                (record {
                  sound = sound;
                  named = named;
                  low = omega arith;
                  pending = λ z. absurd (omega arith);
                })
                (omega arith) in
            (
              _,
              rw room (rw (qlen-open s.flow flowid ring at op) (rw e refl)),
              finish_lem buffers s s2 flowid count ring.skblist
                  (Moved-from (rw self (next here Step.check)) moved),
            )
      ]
