-- ===== src/Flowring/Flow/Stop.antt =====
-- flowring.c: which rings keep an interface stopped, and the functions that stop and wake it.
use native.Mathlib.Decide.{ℕ_discrete}
use omdrop_awdl.Prelude.{ℕ, ◌<◌, ◌≡◌, ◌≢◌, true, some, arith, ◌∙◌, ap, sym}
use omdrop_awdl.Flowring.{FlowRing, Flowring, ring_at, set_ring}
use omdrop_awdl.Flowring.Table.Linked.{IsLinked}
use omdrop_awdl.Flowring.Flow.{ifidx_of}

-- A blocked ring of the interface.
pub record Blocker (flow : Flowring) (ifidx : ℕ) : Type 0 where
  pub id : ℕ
  pub ring : FlowRing
  pub id_in : id < flow.nrofrings
  pub present : flow.rings id ≡ some ring
  pub is_blocked : ring.blocked ≡ true
  pub owner : ifidx_of flow ring ≡ ifidx

-- No interface is stopped without a reason.
pub record IsAccountable (flow : Flowring) : Type 0 where
  pub linked : IsLinked flow
  pub reason : (ifidx : ℕ) → flow.stopped ifidx ≡ true → Blocker flow ifidx

-- A ring that is written keeps its table entry.
pub set_ring-IsLinked :
    (flow : Flowring) (id : ℕ) (ring ring' : FlowRing)
    → IsLinked flow
    → flow.rings id ≡ some ring
    → ring'.hash_id ≡ ring.hash_id
    → IsLinked (set_ring flow id ring')
set_ring-IsLinked flow id ring ring' v there same = record {
  fits = v.fits;
  listed = λ i b ne.
      let (old, lt, at, back) = v.listed i b ne in
      elim (ℕ_discrete id (flow.hash i).flowid) [
        | yes e ↦ (ring', lt, ground arith, ground arith)
        | no n ↦ (old, lt, ground arith, back)
      ];
  entered = λ i r b e. elim (ℕ_discrete id i) [
    | yes e' ↦
        let hit : r.hash_id ≡ ring.hash_id = ground arith in
        rw hit (v.entered i ring b (ap flow.rings (sym e') ∙ there))
    | no n ↦ v.entered i r b (ground arith)
  ];
  cleared = v.cleared;
}

module _ (flow : Flowring) (id : ℕ) (ring : FlowRing) (there : flow.rings id ≡ some ring) where
  -- A blocked ring of the interface that is not the one that is written.
  pub Blocker-other :
      (ring' : FlowRing) (ifidx : ℕ) (w : Blocker flow ifidx)
      → w.id ≢ id
      → Blocker (set_ring flow id ring') ifidx
  Blocker-other ring' ifidx w ne = record {
    id = w.id;
    ring = w.ring;
    id_in = w.id_in;
    present = ground (arith, w.present);
    is_blocked = w.is_blocked;
    owner = w.owner;
  }

  pub Blocker-owner : (ifidx : ℕ) (w : Blocker flow ifidx) → w.id ≡ id → ifidx_of flow ring ≡ ifidx
  Blocker-owner ifidx w e =
      let its : w.ring ≡ ring = ground (arith, w.present) in ap (ifidx_of flow) (sym its) ∙ w.owner

  -- A write that does not unblock the ring.
  pub Blocker-kept :
      (ring' : FlowRing)
      → ring'.hash_id ≡ ring.hash_id
      → (ring.blocked ≡ true → ring'.blocked ≡ true)
      → (ifidx : ℕ) → Blocker flow ifidx
      → Blocker (set_ring flow id ring') ifidx
  Blocker-kept ring' same keeps ifidx w = elim (ℕ_discrete w.id id) [
    | yes e ↦
        let its : w.ring ≡ ring = ground (arith, w.present, w.is_blocked) in
        record {
          id = id;
          ring = ring';
          id_in = rw (← e) w.id_in;
          present = ground arith;
          is_blocked = keeps (ap (λ r. r.blocked) (sym its) ∙ w.is_blocked);
          owner = ap (λ h. (flow.hash h).ifidx) (same ∙ ap (λ r. r.hash_id) (sym its)) ∙ w.owner;
        }
    | no ne ↦ Blocker-other ring' ifidx w ne
  ]

  pub set_ring-IsAccountable :
      (ring' : FlowRing)
      → ring'.hash_id ≡ ring.hash_id
      → (ring.blocked ≡ true → ring'.blocked ≡ true)
      → IsAccountable flow
      → IsAccountable (set_ring flow id ring')
  set_ring-IsAccountable ring' same keeps v = record {
    linked = set_ring-IsLinked flow id ring ring' v.linked there same;
    reason = λ ifidx h. Blocker-kept ring' same keeps ifidx (v.reason ifidx h);
  }

pub ring_at-some :
    (flow : Flowring) (id : ℕ) (ring : FlowRing)
    → ring_at flow id ≡ some ring
    → (id < flow.nrofrings) × (flow.rings id ≡ some ring)
ring_at-some flow id ring h = (ground arith, ground arith)

pub some-ring_at :
    (flow : Flowring) (id : ℕ) (ring : FlowRing)
    → id < flow.nrofrings
    → flow.rings id ≡ some ring
    → ring_at flow id ≡ some ring
some-ring_at flow id ring id_in there = ground arith

pub ring_at-set_ring :
    (flow : Flowring) (id : ℕ) (ring ring' : FlowRing)
    → ring_at flow id ≡ some ring
    → ring_at (set_ring flow id ring') id ≡ some ring'
ring_at-set_ring flow id ring ring' at = ground arith
