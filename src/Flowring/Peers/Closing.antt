-- ===== src/Flowring/Peers/Closing.antt =====
-- flowring.c: closing one ring of a peer or an interface.
use mathlib.Core.Bool.{false≢true}
use native.Mathlib.Decide.{ℕ_discrete}
use omdrop_awdl.Prelude.{
  ℕ, ◌<◌, ◌≡◌, ◌≢◌, refl, Bool, true, false, none, some, arith, inl, inr, ◌∙◌, sym, ◌⊎◌,
}
use omdrop_awdl.Flowring.{
  HashEntry, hashsize, invalid_ifidx, closing, is_open, FlowRing, Flowring, ring_at, set_ring,
}
use omdrop_awdl.Flowring.Table.{is_free}
use omdrop_awdl.Flowring.Flow.Stop.{
  IsAccountable, set_ring-IsAccountable, ring_at-some, ring_at-set_ring,
}
use omdrop_awdl.Flowring.Flow.Removal.{delete-IsAccountable}
use omdrop_awdl.Flowring.Peers.{delete_flowring}

-- Entries only disappear, and rings only stop being open.
pub record IsShrunk (flow flow' : Flowring) : Type 0 where
  pub entries : (i : ℕ) → (flow'.hash i ≡ flow.hash i) ⊎ ((flow'.hash i).ifidx ≡ invalid_ifidx)
  pub rings_open :
      (id : ℕ) (ring' : FlowRing)
      → flow'.rings id ≡ some ring'
      → is_open ring'.status ≡ true
      → (ring : FlowRing) × (flow.rings id ≡ some ring) × (is_open ring.status ≡ true)

-- Entry `i` does not name an open ring.
pub record IsClosed (test : HashEntry → Bool) (flow : Flowring) (i : ℕ) : Type 0 where
  pub not_open :
      test (flow.hash i) ≡ true
      → (ring : FlowRing) → flow.rings (flow.hash i).flowid ≡ some ring
      → is_open ring.status ≡ false

pub free_ifidx : (e : HashEntry) → is_free e ≡ true → e.ifidx ≡ invalid_ifidx
free_ifidx e h = ground arith

none-not-some : (ring : FlowRing) → ¬ (none ≡ some ring)
none-not-some ring h = ground arith

-- One closing: what delete_flowring leaves.
pub delete_flowring_lem :
    (submitted : Bool) (flow : Flowring) (id : ℕ) (ring : FlowRing)
    → ring_at flow id ≡ some ring
    → IsAccountable flow
    → (flow' : Flowring) × (delete_flowring submitted flow id ≡ some flow')
      × IsAccountable flow'
      × IsShrunk flow flow'
      × ((ring' : FlowRing) → flow'.rings id ≡ some ring' → is_open ring'.status ≡ false)
unfolding delete_flowring
delete_flowring_lem true flow id ring at v =
    let ring1 : FlowRing = record ring { status = closing } in
    let there = (ring_at-some flow id ring at).1 in
    (
      set_ring flow id ring1,
      rw (at, delete_flowring) refl,
      set_ring-IsAccountable flow id ring there ring1 refl (λ b. b) v,
      record {
        entries = λ i. inl refl;
        rings_open = λ j r h o. elim (ℕ_discrete id j) [
          | yes e ↦ absurd (false≢true (ground arith))
          | no n ↦ (r, ground arith, o)
        ];
      },
      λ r h. ground arith,
    )
delete_flowring_lem false flow id ring at v =
    let ring1 : FlowRing = record ring { status = closing } in
    let there = (ring_at-some flow id ring at).1 in
    let v1 = set_ring-IsAccountable flow id ring there ring1 refl (λ b. b) v in
    let (flow2, e, v2, gone, free, others, entries2, _) =
      delete-IsAccountable (set_ring flow id ring1) id ring1
        (ring_at-set_ring flow id ring ring1 at) v1 in
    (
      flow2,
      rw (at, delete_flowring) e,
      v2,
      record {
        entries = λ i. elim (ℕ_discrete ring.hash_id i) [
          | yes e' ↦ inr (free_ifidx (flow2.hash i) (rw (← e') free))
          | no n ↦ inl (entries2 i n)
        ];
        rings_open = λ j r h o. elim (ℕ_discrete id j) [
          | yes e' ↦ absurd (none-not-some r (sym gone ∙ rw (← e') at h))
          | no n ↦ (r, ground (arith, others j n), o)
        ];
      },
      λ r h. absurd (none-not-some r (sym gone ∙ h)),
    )

-- Under the invariant each entry of an interface has a ring.
pub entry-ring :
    (flow : Flowring) (i : ℕ)
    → IsAccountable flow
    → i < hashsize
    → (flow.hash i).ifidx ≢ invalid_ifidx
    → (ring : FlowRing) × (ring_at flow (flow.hash i).flowid ≡ some ring)
entry-ring flow i v i_in known =
    let (ring, lt, at, back) = v.linked.listed i i_in known in (ring, ground arith)

pub IsShrunk-refl : (flow : Flowring) → IsShrunk flow flow
IsShrunk-refl flow = record { entries = λ i. inl refl; rings_open = λ id ring h o. (ring, h, o) }
