-- ===== src/Flowring/Flow/Queues.antt =====
-- flowring.c: enqueue and dequeue on a ring that exists.
use omdrop_awdl.Prelude.{
  ℕ, ◌≡◌, refl, Bool, true, false, not, ◌&&◌, ◌||◌, Option, some, List, [], ◌∷◌, ◌++◌, ltb, length,
  arith, Bool-cases, inl, inr, ◌∙◌, ap,
}
use omdrop_awdl.Flowring.{is_open, Skb, FlowRing, Flowring, ring_at, set_ring}
use omdrop_awdl.Flowring.Flow.{flowring_high, flowring_low, enqueue, dequeue, first_skb, other_skbs}
use omdrop_awdl.Flowring.Flow.Stop.{
  IsAccountable, set_ring-IsAccountable, ring_at-some, some-ring_at, ring_at-set_ring,
}
use omdrop_awdl.Flowring.Flow.Block.{block-IsAccountable}

-- The ring after a packet has been queued.
abbrev pub queued : FlowRing → Skb → FlowRing
queued ring skb =
    let skblist : List Skb = ring.skblist ++ (skb ∷ []) in
    record ring { skblist = skblist; blocked = ring.blocked || ltb flowring_high (length skblist) }

flag_set : (b c : Bool) → (not b && c) ≡ true → true ≡ (b || c)
flag_set b c h = ground arith

flag_kept : (b c : Bool) → (not b && c) ≡ false → b ≡ (b || c)
flag_kept b c h = ground arith

flag_cleared : (b c : Bool) → (b && c) ≡ true → false ≡ (b && not c)
flag_cleared b c h = ground arith

flag_left : (b c : Bool) → (b && c) ≡ false → b ≡ (b && not c)
flag_left b c h = ground arith

-- enqueue on a ring that exists, from an accountable state, does not fault. It puts the packet at
-- the end of the queue, returns the new length, marks the ring as blocked if the length exceeds
-- BRCMF_FLOWRING_HIGH, and leaves the state accountable.
pub enqueue-IsAccountable :
    (flow : Flowring) (id : ℕ) (ring : FlowRing) (skb : Skb)
    → ring_at flow id ≡ some ring
    → IsAccountable flow
    → (flow' : Flowring) × (enqueue flow id skb ≡ some (length (ring.skblist ++ (skb ∷ [])), flow'))
      × IsAccountable flow'
      × (ring_at flow' id ≡ some (queued ring skb))
unfolding enqueue
enqueue-IsAccountable flow id ring skb at v =
    let skblist : List Skb = ring.skblist ++ (skb ∷ []) in
    let full : Bool = ltb flowring_high (length skblist) in
    let flagged : Bool → Option FlowRing =
      λ b. some (record ring { skblist = skblist; blocked = b }) in
    let ring1 : FlowRing = record ring { skblist = skblist } in
    let flow1 : Flowring = set_ring flow id ring1 in
    let (id_in, there) = ring_at-some flow id ring at in
    let v1 = set_ring-IsAccountable flow id ring there ring1 refl (λ b. b) v in
    elim (Bool-cases (not ring.blocked && ltb flowring_high (length skblist))) [
      | inl over ↦
          let (flow2, e, v2, there2, _, count, _, _) =
            block-IsAccountable flow1 id ring1 true (ring_at-set_ring flow id ring ring1 at) v1 in
          let enough : ltb (length skblist) flowring_low ≡ false = ground arith in
          (
            flow2,
            rw (at, enqueue) (rw (over, enough) (rw e)),
            v2,
            some-ring_at flow2 id _ (rw count id_in)
                (there2 ∙ ap flagged (flag_set ring.blocked full over)),
          )
      | inr under ↦ (
        flow1,
        rw (at, enqueue) (rw under),
        v1,
        ring_at-set_ring flow id ring ring1 at ∙ ap flagged (flag_kept ring.blocked full under),
      )
    ]

-- The ring after a packet has been taken.
abbrev pub taken : FlowRing → FlowRing
taken ring =
    let skblist : List Skb = other_skbs ring.skblist in
    record ring {
      skblist = skblist;
      blocked = ring.blocked && not (ltb (length skblist) flowring_low);
    }

-- dequeue on an open ring, from an accountable state, does not fault. It returns the first packet
-- of the queue, if there is one, and keeps the others in order, unmarks the ring if fewer than
-- BRCMF_FLOWRING_LOW are left, and leaves the state accountable.
pub dequeue-IsAccountable :
    (flow : Flowring) (id : ℕ) (ring : FlowRing)
    → ring_at flow id ≡ some ring
    → is_open ring.status ≡ true
    → IsAccountable flow
    → (flow' : Flowring) × (dequeue flow id ≡ some (first_skb ring.skblist, flow'))
      × IsAccountable flow'
      × (ring_at flow' id ≡ some (taken ring))
unfolding dequeue
dequeue-IsAccountable flow id ring at op v =
    let skblist : List Skb = other_skbs ring.skblist in
    let few : Bool = ltb (length skblist) flowring_low in
    let flagged : Bool → Option FlowRing =
      λ b. some (record ring { skblist = skblist; blocked = b }) in
    let ring1 : FlowRing = record ring { skblist = skblist } in
    let flow1 : Flowring = set_ring flow id ring1 in
    let (id_in, there) = ring_at-some flow id ring at in
    let v1 = set_ring-IsAccountable flow id ring there ring1 refl (λ b. b) v in
    elim (Bool-cases (ring.blocked && few)) [
      | inl drained ↦
          let (flow2, e, v2, there2, _, count, _, _) =
            block-IsAccountable flow1 id ring1 false (ring_at-set_ring flow id ring ring1 at) v1 in
          (
            flow2,
            rw (at, dequeue) (rw (op, drained) (rw e)),
            v2,
            some-ring_at flow2 id _ (rw count id_in)
                (there2 ∙ ap flagged (flag_cleared ring.blocked few drained)),
          )
      | inr left ↦ (
        flow1,
        rw (at, dequeue) (rw (op, left)),
        v1,
        ring_at-set_ring flow id ring ring1 at ∙ ap flagged (flag_left ring.blocked few left),
      )
    ]
