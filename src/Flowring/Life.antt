-- ===== src/Flowring/Life.antt =====
-- flowring.c: every sequence of calls, from attach on.
use mathlib.Core.Bool.{false≢true}
use omdrop_awdl.Prelude.{ℕ, ◌^◌, ◌<◌, ◌≡◌, ◌≢◌, Bool, Option, some}
use omdrop_awdl.Flowring.{Mac, Skb, AddrMode, invalid_ifidx, Flowring}
use omdrop_awdl.Flowring.Table.{attach, create}
use omdrop_awdl.Flowring.Table.Linked.{attach-IsLinked}
use omdrop_awdl.Flowring.Flow.{enqueue, dequeue, reinsert, delete, open_ring}
use omdrop_awdl.Flowring.Flow.Stop.{IsAccountable}
use omdrop_awdl.Flowring.Peers.{delete_flowring, configure_addr_mode, delete_peer, add_tdls_peer}
use omdrop_awdl.Flowring.Calls.{
  create-IsAccountable, reinsert-IsAccountable, open_ring-IsAccountable, enqueued-IsAccountable,
  dequeued-IsAccountable, deleted-IsAccountable, closed-IsAccountable, add_tdls_peer-IsAccountable,
  changed-IsAccountable, left-IsAccountable,
}

-- One call that does not fault, with any arguments, except that the interface is not 0xff.
pub data Step : Flowring → Flowring → Type 0 where
  creating :
      {flow : Flowring} (kzalloc : Bool) (da : Mac) (prio ifidx : ℕ)
      → ifidx ≢ invalid_ifidx
      → Step flow (create kzalloc flow da prio ifidx).1
  opening : {flow flow' : Flowring} (id : ℕ) → open_ring flow id ≡ some flow' → Step flow flow'
  enqueuing :
      {flow flow' : Flowring} (id n : ℕ) (skb : Skb)
      → enqueue flow id skb ≡ some (n, flow')
      → Step flow flow'
  dequeuing :
      {flow flow' : Flowring} (id : ℕ) (skb : Option Skb)
      → dequeue flow id ≡ some (skb, flow')
      → Step flow flow'
  reinserting :
      {flow flow' : Flowring} (id : ℕ) (skb : Skb)
      → reinsert flow id skb ≡ some flow'
      → Step flow flow'
  deleting : {flow flow' : Flowring} (id : ℕ) → delete flow id ≡ some flow' → Step flow flow'
  closing_ring :
      {flow flow' : Flowring} (submitted : Bool) (id : ℕ)
      → delete_flowring submitted flow id ≡ some flow'
      → Step flow flow'
  changing_mode :
      {flow flow' : Flowring} (submitted : ℕ → Bool) (ifidx : ℕ) (addr_mode : AddrMode)
      → ifidx ≢ invalid_ifidx
      → configure_addr_mode submitted flow ifidx addr_mode ≡ some flow'
      → Step flow flow'
  leaving :
      {flow flow' : Flowring} (submitted : ℕ → Bool) (ifidx : ℕ) (peer : Mac)
      → ifidx ≢ invalid_ifidx
      → delete_peer submitted flow ifidx peer ≡ some flow'
      → Step flow flow'
  adding_peer :
      {flow : Flowring} (kzalloc : Bool) (peer : Mac) → Step flow (add_tdls_peer kzalloc flow peer)

pub data Reach (start : Flowring) : Flowring → Type 0 where
  here : Reach start start
  step : {flow flow' : Flowring} → Reach start flow → Step flow flow' → Reach start flow'

Step-IsAccountable :
    {flow flow' : Flowring} → Step flow flow' → IsAccountable flow → IsAccountable flow'
Step-IsAccountable (creating kzalloc da prio ifidx known) v =
    create-IsAccountable kzalloc _ da prio ifidx known v
Step-IsAccountable (opening id e) v = open_ring-IsAccountable _ id _ v e
Step-IsAccountable (enqueuing id n skb e) v = enqueued-IsAccountable _ id _ v n skb e
Step-IsAccountable (dequeuing id skb e) v = dequeued-IsAccountable _ id _ v skb e
Step-IsAccountable (reinserting id skb e) v = reinsert-IsAccountable _ id _ v skb e
Step-IsAccountable (deleting id e) v = deleted-IsAccountable _ id _ v e
Step-IsAccountable (closing_ring submitted id e) v = closed-IsAccountable _ id _ v submitted e
Step-IsAccountable (changing_mode submitted ifidx addr_mode known e) v =
    changed-IsAccountable submitted _ _ ifidx addr_mode known e v
Step-IsAccountable (leaving submitted ifidx peer known e) v =
    left-IsAccountable submitted _ _ ifidx peer known e v
Step-IsAccountable (adding_peer kzalloc peer) v = add_tdls_peer-IsAccountable kzalloc _ peer v

attach-IsAccountable : (nrofrings : ℕ) → nrofrings < 2 ^ 16 → IsAccountable (attach nrofrings)
attach-IsAccountable nrofrings h = record {
  linked = attach-IsLinked nrofrings h;
  reason = λ ifidx s. absurd (unfold attach in false≢true s);
}

-- After attach with fewer than 2 ^ 16 rings and any sequence of calls on interfaces other than
-- 0xff, the table and the rings point at each other, and each interface that is stopped has a ring
-- that is blocked.
pub Reach-IsAccountable :
    (nrofrings : ℕ) (flow : Flowring)
    → nrofrings < 2 ^ 16
    → Reach (attach nrofrings) flow
    → IsAccountable flow
Reach-IsAccountable nrofrings flow h here = attach-IsAccountable nrofrings h
Reach-IsAccountable nrofrings flow h (step r s) =
    Step-IsAccountable s (Reach-IsAccountable nrofrings _ h r)
