-- ===== src/Flowring/Flow/Block.antt =====
-- flowring.c: block, which stops and wakes an interface.
use native.Mathlib.Decide.{ℕ_discrete}
use omdrop_awdl.Prelude.{
  ℕ, zero, suc, ◌+◌, ◌<◌, ◌≡◌, ◌≢◌, refl, Bool, true, false, some, arith, Bool-cases, Option-cases,
  inl, inr, ◌∙◌, bool_eq, bool_eq-true, bool_eq-false, ◌⊎◌,
}
use omdrop_awdl.Flowring.{FlowRing, Flowring, ring_at, set_ring}
use omdrop_awdl.Flowring.Table.Linked.{IsLinked}
use omdrop_awdl.Flowring.Flow.{ifidx_of, txflowblock, is_other_blocked, any_other_blocked, block}
use omdrop_awdl.Flowring.Flow.Stop.{
  Blocker, IsAccountable, set_ring-IsLinked, Blocker-other, Blocker-owner, Blocker-kept,
  ring_at-some,
}

any_other_blocked-true :
    (flow : Flowring) (flowid ifidx i left : ℕ)
    → any_other_blocked flow flowid ifidx i left ≡ true
    → (id : ℕ) × (ring : FlowRing) × (id < i + left)
      × (id ≢ flowid)
      × (flow.rings id ≡ some ring)
      × (ring.blocked ≡ true)
      × (ifidx_of flow ring ≡ ifidx)
unfolding any_other_blocked
any_other_blocked-true flow flowid ifidx i zero h = cc
any_other_blocked-true flow flowid ifidx i (suc left) h =
    elim (Bool-cases (is_other_blocked flow flowid ifidx i)) [
      | inl e ↦ elim (Option-cases (flow.rings i)) [
        | inl gone ↦ absurd (unfold is_other_blocked in ground arith)
        | inr (ring, there) ↦
            let parts : (i ≢ flowid) × (ring.blocked ≡ true) × (ifidx_of flow ring ≡ ifidx) =
              unfold is_other_blocked in ground arith in
            (i, ring, omega arith, parts.0, there, parts.1, parts.2)
      ]
      | inr e ↦
          let (id, ring, lt, ne, there, b, o) =
            any_other_blocked-true flow flowid ifidx (i + 1) left (rw e at h) in
          (id, ring, omega arith, ne, there, b, o)
    ]

-- What block does: nothing, or the flag alone, or the flag and the interface.
block-cases :
    (flow : Flowring) (id : ℕ) (ring : FlowRing) (b : Bool)
    → ring_at flow id ≡ some ring
    → let flow1 = set_ring flow id (record ring { blocked = b }) in
      ((ring.blocked ≡ b) × (block flow id b ≡ some flow))
      ⊎ ((ring.blocked ≢ b)
          × (any_other_blocked flow id (ifidx_of flow ring) 0 flow.nrofrings ≡ true)
          × (block flow id b ≡ some flow1))
      ⊎ ((ring.blocked ≢ b) × (block flow id b ≡ some (txflowblock flow1 (ifidx_of flow ring) b)))
unfolding block
block-cases flow id ring b at = elim (Bool-cases (bool_eq ring.blocked b)) [
  | inl e ↦ inl (bool_eq-true _ _ e, rw (at, block) (rw e))
  | inr e ↦ elim (Bool-cases (any_other_blocked flow id (ifidx_of flow ring) 0 flow.nrofrings)) [
    | inl o ↦ inr (inl (bool_eq-false _ _ e, o, rw (at, block) (rw (e, o))))
    | inr o ↦ inr (inr (bool_eq-false _ _ e, rw (at, block) (rw (e, o))))
  ]
]

-- Stopping or waking an interface leaves the rings as they are.
woken-IsLinked :
    (flow : Flowring) (ifidx : ℕ) (b : Bool) → IsLinked flow → IsLinked (txflowblock flow ifidx b)
woken-IsLinked flow ifidx b v = record {
  fits = v.fits;
  listed = v.listed;
  entered = v.entered;
  cleared = v.cleared;
}

Blocker-woken :
    (flow : Flowring) (ifidx' : ℕ) (b : Bool) (ifidx : ℕ)
    → Blocker flow ifidx
    → Blocker (txflowblock flow ifidx' b) ifidx
Blocker-woken flow ifidx' b ifidx w = record {
  id = w.id;
  ring = w.ring;
  id_in = w.id_in;
  present = w.present;
  is_blocked = w.is_blocked;
  owner = w.owner;
}

-- The interface of a ring that is blocked is stopped, and one whose last blocked ring is unblocked
-- is woken: the ring that is written, the others, and the interface together.
txflowblock-IsAccountable :
    (flow : Flowring) (id : ℕ) (ring : FlowRing) (b : Bool)
    → id < flow.nrofrings
    → flow.rings id ≡ some ring
    → IsAccountable flow
    → IsAccountable
        (txflowblock (set_ring flow id (record ring { blocked = b })) (ifidx_of flow ring) b)
txflowblock-IsAccountable flow id ring true id_in there v = record {
  linked =
      woken-IsLinked _ _ true
        (set_ring-IsLinked flow id ring (record ring { blocked = true }) v.linked there refl);
  reason = λ ifidx h. elim (ℕ_discrete (ifidx_of flow ring) ifidx) [
    | yes e ↦ record {
      id = id;
      ring = record ring { blocked = true };
      id_in = id_in;
      present = ground arith;
      is_blocked = refl;
      owner = e;
    }
    | no ne ↦ Blocker-woken _ _ true ifidx (
        Blocker-kept flow id ring there (record ring { blocked = true }) refl (λ _. refl) ifidx
          (v.reason ifidx (ground arith)))
  ];
}
txflowblock-IsAccountable flow id ring false id_in there v = record {
  linked =
      woken-IsLinked _ _ false
        (set_ring-IsLinked flow id ring (record ring { blocked = false }) v.linked there refl);
  reason = λ ifidx h. elim (ℕ_discrete (ifidx_of flow ring) ifidx) [
    | yes e ↦ absurd (ground arith)
    | no ne ↦
        let w = v.reason ifidx (ground arith) in
        Blocker-woken _ _ false ifidx (
          Blocker-other flow id ring there (record ring { blocked = false }) ifidx w
            λ same. ne (Blocker-owner flow id ring there ifidx w same))
  ];
}

-- Another open ring of the interface stays blocked.
other-IsAccountable :
    (flow : Flowring) (id : ℕ) (ring : FlowRing) (b : Bool)
    → id < flow.nrofrings
    → flow.rings id ≡ some ring
    → any_other_blocked flow id (ifidx_of flow ring) 0 flow.nrofrings ≡ true
    → IsAccountable flow
    → IsAccountable (set_ring flow id (record ring { blocked = b }))
other-IsAccountable flow id ring b id_in there other v = record {
  linked = set_ring-IsLinked flow id ring (record ring { blocked = b }) v.linked there refl;
  reason = λ ifidx h.
      let w = v.reason ifidx h in
      elim (ℕ_discrete w.id id) [
        | yes e ↦
            let (id', ring', lt, ne, there', blocked', owner') =
              any_other_blocked-true flow id (ifidx_of flow ring) 0 flow.nrofrings other in
            record {
              id = id';
              ring = ring';
              id_in = omega arith;
              present = ground arith;
              is_blocked = blocked';
              owner = owner' ∙ Blocker-owner flow id ring there ifidx w e;
            }
        | no ne ↦ Blocker-other flow id ring there (record ring { blocked = b }) ifidx w ne
      ];
}

-- What block leaves is accountable, and the ring has the flag.
pub block-IsAccountable :
    (flow : Flowring) (id : ℕ) (ring : FlowRing) (b : Bool)
    → ring_at flow id ≡ some ring
    → IsAccountable flow
    → (flow' : Flowring) × (block flow id b ≡ some flow')
      × IsAccountable flow'
      × (flow'.rings id ≡ some (record ring { blocked = b }))
      × (flow'.hash ≡ flow.hash)
      × (flow'.nrofrings ≡ flow.nrofrings)
      × (flow'.finalized ≡ flow.finalized)
      × ((j : ℕ) → id ≢ j → flow'.rings j ≡ flow.rings j)
block-IsAccountable flow id ring b at v =
    let (id_in, there) = ring_at-some flow id ring at in
    elim (block-cases flow id ring b at) [
      | inl (same, e) ↦ (flow, e, v, ground arith, refl, refl, refl, λ j n. refl)
      | inr (inl (ne, other, e)) ↦ (
        set_ring flow id (record ring { blocked = b }),
        e,
        other-IsAccountable flow id ring b id_in there other v,
        ground arith,
        refl,
        refl,
        refl,
        λ j n. ground arith,
      )
      | inr (inr (ne, e)) ↦ (
        txflowblock (set_ring flow id (record ring { blocked = b })) (ifidx_of flow ring) b,
        e,
        txflowblock-IsAccountable flow id ring b id_in there v,
        ground arith,
        refl,
        refl,
        refl,
        λ j n. ground arith,
      )
    ]
