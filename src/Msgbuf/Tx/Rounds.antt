-- ===== src/Msgbuf/Tx/Rounds.antt =====
-- msgbuf.c: the loop of brcmf_msgbuf_txflow.
use omdrop_awdl.Prelude.{
  ℕ, zero, suc, ◌<◌, ◌≡◌, ◌⊎◌, inl, inr, refl, ◌∙◌, ap, Bool, true, false, ◌==◌, if◌then◌else◌,
  Option, some, List, [], ◌∷◌, ◌++◌, map, length, arith,
}
use omdrop_awdl.Pcie.{DeviceRing}
use omdrop_awdl.Pcie.Sharing.{Reach, here, Reach-trans}
use omdrop_awdl.Flowring.{Skb, FlowRing, Flowring, is_open, ring_at, set_ring}
use omdrop_awdl.Flowring.Flow.{first_skb, other_skbs, qlen, dequeue, reinsert}
use omdrop_awdl.Flowring.Flow.Stop.{
  IsAccountable, set_ring-IsAccountable, ring_at-some, ring_at-set_ring,
}
use omdrop_awdl.Flowring.Flow.Queues.{taken, dequeue-IsAccountable}
use omdrop_awdl.Msgbuf.Tx.{Msgbuf, tx_rounds, transmit, put_back}
use omdrop_awdl.Msgbuf.Tx.Headers.{Buffers, TxHeader}
use omdrop_awdl.Msgbuf.Tx.Posting.{IsReady, Reason, Refused, Sent, transmit_lem}

-- The packets that have been posted.
abbrev pub sent : Msgbuf → List Skb
sent s = map (λ h. h.skb) s.posted

-- The loop has stopped: `todo` are the packets that were posted or waited before, and `start` is the
-- submission ring then.
pub record Moved (buffers : Buffers) (start : DeviceRing) (todo : List Skb) (s' : Msgbuf)
    (flowid count : ℕ) : Type 0 where
  pub ring : FlowRing
  pub at : ring_at s'.flow flowid ≡ some ring
  pub accountable : IsAccountable s'.flow
  pub order : sent s' ++ ring.skblist ≡ todo
  pub ready : IsReady s' flowid count
  pub reached : Reach start (s'.flowrings flowid)
  pub stopped :
      (ring.skblist ≡ [])
      ⊎ ((skb : Skb) × (skbs : List Skb) × (ring.skblist ≡ skb ∷ skbs)
          × Reason buffers s' flowid skb)

pub Moved-from :
    {buffers : Buffers} {start start' : DeviceRing} {todo : List Skb} {s' : Msgbuf}
    {flowid count : ℕ}
    → Reach start start'
    → Moved buffers start' todo s' flowid count
    → Moved buffers start todo s' flowid count
Moved-from reached m = record {
  ring = m.ring;
  at = m.at;
  accountable = m.accountable;
  order = m.order;
  ready = m.ready;
  reached = Reach-trans reached m.reached;
  stopped = m.stopped;
}

Moved-todo :
    {buffers : Buffers} {start : DeviceRing} {todo todo' : List Skb} {s' : Msgbuf}
    {flowid count : ℕ}
    → todo ≡ todo'
    → Moved buffers start todo s' flowid count
    → Moved buffers start todo' s' flowid count
Moved-todo e m = rw e at m

pub qlen-open :
    (flow : Flowring) (id : ℕ) (ring : FlowRing)
    → ring_at flow id ≡ some ring
    → is_open ring.status ≡ true
    → qlen flow id ≡ some (length ring.skblist)
unfolding qlen
qlen-open flow id ring at op = ground arith

sent_next :
    (hs : List TxHeader) (h : TxHeader) (queue : List Skb)
    → map (λ h. h.skb) (hs ++ (h ∷ [])) ++ queue ≡ map (λ h. h.skb) hs ++ (h.skb ∷ queue)
sent_next [] h queue = refl
sent_next (h' ∷ hs) h queue = ap (λ l. h'.skb ∷ l) (sent_next hs h queue)

module _ (buffers : Buffers) (s : Msgbuf) (flowid count : ℕ) (ring : FlowRing)
    (at : ring_at s.flow flowid ≡ some ring) (skb : Skb) (v : IsAccountable s.flow) where
  back_lem :
      (s' : Msgbuf)
      → Refused buffers s s' flowid count skb
      → (s'' : Msgbuf) × (put_back s' flowid skb count ≡ some (false, (count, s'')))
        × Moved buffers (s.flowrings flowid) (sent s ++ (skb ∷ ring.skblist)) s'' flowid count
  unfolding reinsert
  back_lem s' back =
      let ring1 : FlowRing = record ring { skblist = skb ∷ ring.skblist } in
      let there = (ring_at-some s.flow flowid ring at).1 in
      let s'' : Msgbuf = record s' { flow = set_ring s.flow flowid ring1 } in
      (
        s'',
        rw (back.same_flow, at) refl,
        record {
          ring = ring1;
          at = ring_at-set_ring s.flow flowid ring ring1 at;
          accountable = set_ring-IsAccountable s.flow flowid ring there ring1 refl (λ b. b) v;
          order = ap (λ p. map (λ h. h.skb) p ++ (skb ∷ ring.skblist)) back.same_posted;
          ready = record {
            sound = back.ready.sound;
            named = back.ready.named;
            low = back.ready.low;
            pending = back.ready.pending;
          };
          reached = back.reached;
          stopped = inr (skb, ring.skblist, refl, back.reason);
        },
      )

  on_lem :
      (s1 s' : Msgbuf) (count1 count2 : ℕ) (queue : List Skb)
      → Sent s s1 flowid count1 skb
      → Moved buffers (s1.flowrings flowid) (sent s1 ++ queue) s' flowid count2
      → Moved buffers (s.flowrings flowid) (sent s ++ (skb ∷ queue)) s' flowid count2
  on_lem s1 s' count1 count2 queue one rest = record {
    ring = rest.ring;
    at = rest.at;
    accountable = rest.accountable;
    order =
        rest.order
        ∙ (ap (λ p. map (λ h. h.skb) p ++ queue) one.posted_next
            ∙ (sent_next s.posted one.header queue ∙ ap (λ k. sent s ++ (k ∷ queue)) one.its_skb));
    ready = rest.ready;
    reached = Reach-trans one.reached rest.reached;
    stopped = rest.stopped;
  }

round_lem :
    (rounds : ℕ) (buffers : Buffers) (s : Msgbuf) (flowid count n : ℕ) (skb : Option Skb)
    (flow : Flowring) (go : Bool) (count1 : ℕ) (s1 : Msgbuf)
    → qlen s.flow flowid ≡ some (suc n)
    → dequeue s.flow flowid ≡ some (skb, flow)
    → transmit buffers (record s { flow = flow }) flowid count skb ≡ some (go, (count1, s1))
    → tx_rounds (suc rounds) buffers s flowid count
      ≡ (if go then tx_rounds rounds buffers s1 flowid count1 else some (count1, s1))
unfolding tx_rounds
round_lem rounds buffers s flowid count n skb flow go count1 s1 len taken sent =
    let some_left : (suc n == 0) ≡ false = ground arith in
    rw (len, some_left) (rw taken (rw sent refl))

pub tx_rounds_lem :
    (rounds : ℕ) (buffers : Buffers) (s : Msgbuf) (flowid count : ℕ) (ring : FlowRing)
    (queue : List Skb)
    → ring.skblist ≡ queue
    → ring_at s.flow flowid ≡ some ring
    → is_open ring.status ≡ true
    → IsAccountable s.flow
    → IsReady s flowid count
    → length queue < rounds
    → (count' : ℕ) × (s' : Msgbuf) × (tx_rounds rounds buffers s flowid count ≡ some (count', s'))
      × Moved buffers (s.flowrings flowid) (sent s ++ queue) s' flowid count'
unfolding tx_rounds
tx_rounds_lem zero buffers s flowid count ring queue q at op acc v lt = absurd (omega arith)
tx_rounds_lem (suc rounds) buffers s flowid count ring [] q at op acc v lt = (
  count,
  s,
  rw (qlen-open s.flow flowid ring at op) (rw q refl),
  record {
    ring = ring;
    at = at;
    accountable = acc;
    order = rw q refl;
    ready = v;
    reached = here;
    stopped = inl q;
  },
)
tx_rounds_lem (suc rounds) buffers s flowid count ring (skb ∷ skbs) q at op acc v lt =
    let (flow1, e, acc1, at1) = dequeue-IsAccountable s.flow flowid ring at op acc in
    let s1 : Msgbuf = record s { flow = flow1 } in
    let e' : dequeue s.flow flowid ≡ some (some skb, flow1) =
      e ∙ ap (λ l. some (first_skb l, flow1)) q in
    let len : qlen s.flow flowid ≡ some (suc (length skbs)) =
      qlen-open s.flow flowid ring at op ∙ ap (λ l. some (length l)) q in
    let v1 : IsReady s1 flowid count = record {
      sound = v.sound;
      named = v.named;
      low = v.low;
      pending = v.pending;
    } in
    elim (transmit_lem buffers s1 flowid count skb (taken ring) at1 v1) [
      | inl (s2, e2, back) ↦
          let (s3, e3, moved) =
            back_lem buffers s1 flowid count (taken ring) at1 skb acc1 s2 back in
          (
            count,
            s3,
            round_lem rounds buffers s flowid count (length skbs) (some skb) flow1 false count s3
                len e' (e2 ∙ e3),
            Moved-todo (ap (λ l. sent s ++ (skb ∷ other_skbs l)) q) moved,
          )
      | inr (count1, s2, e2, one) ↦
          let (count', s', e3, moved) =
            tx_rounds_lem rounds buffers s2 flowid count1 (taken ring) skbs (ap other_skbs q)
              (rw one.same_flow at1) op (rw one.same_flow acc1) one.ready (omega arith) in
          (
            count',
            s',
            round_lem rounds buffers s flowid count (length skbs) (some skb) flow1 true count1 s2
                  len e' e2
                ∙ e3,
            on_lem buffers s1 flowid count (taken ring) at1 skb acc1 s2 s' count1 count' skbs one
                moved,
          )
    ]
