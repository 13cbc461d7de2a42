-- ===== src/Flowring/Flow/Removal.antt =====
-- flowring.c: delete of a ring.
use mathlib.Core.Bool.{false≢true}
use mathlib.Core.List.{reverse, reverse-cons, append_assoc}
use native.Mathlib.Decide.{ℕ_discrete}
use omdrop_awdl.Prelude.{
  ℕ, ◌<◌, ◌≡◌, ◌≢◌, refl, true, false, Option, none, some, List, [], ◌∷◌, ◌++◌, arith, ◌∙◌, ap, sym,
  ◌>>=◌,
}
use omdrop_awdl.Flowring.{Skb, FlowRing, Flowring, ring_at, ring_slot}
use omdrop_awdl.Flowring.Table.{is_free}
use omdrop_awdl.Flowring.Flow.{block, delete_ring, finalize, remove_ring, delete}
use omdrop_awdl.Flowring.Flow.Stop.{IsAccountable, ring_at-some}
use omdrop_awdl.Flowring.Flow.Block.{block-IsAccountable}

finalize_lem : (skbs done : List Skb) → finalize skbs done ≡ reverse skbs ++ done
unfolding finalize
finalize_lem [] done = refl
finalize_lem (skb ∷ skbs) done =
    finalize_lem skbs (skb ∷ done)
    ∙ (sym (append_assoc (reverse skbs) (skb ∷ []) done)
        ∙ ap (λ s. s ++ done) (sym (reverse-cons skb skbs)))

-- A ring that is not blocked goes, with its table entry.
remove_ring-IsAccountable :
    (flow : Flowring) (id : ℕ) (ring : FlowRing)
    → id < flow.nrofrings
    → flow.rings id ≡ some ring
    → ring.blocked ≡ false
    → IsAccountable flow
    → IsAccountable (remove_ring flow id ring)
unfolding remove_ring
remove_ring-IsAccountable flow id ring id_in there clear v =
    let own = v.linked.entered id ring id_in there in
    record {
      linked = record {
        fits = v.linked.fits;
        listed = λ i b ne. elim (ℕ_discrete ring.hash_id i) [
          | yes e ↦ absurd (ne (ground arith))
          | no n ↦
              let (old, lt, at, back) = v.linked.listed i b (ground arith) in
              (old, ground arith, ground arith, back)
        ];
        entered = λ i r b e.
            let ne : id ≢ i = ground arith in
            let old = v.linked.entered i r b (ground arith) in
            let apart : ring.hash_id ≢ r.hash_id = λ same. ne (ground arith) in
            (old.0, ground arith, ground arith);
        cleared = λ i b e. elim (ℕ_discrete ring.hash_id i) [
          | yes e ↦ ground arith
          | no n ↦ ground (arith, v.linked.cleared i b)
        ];
      };
      reason = λ ifidx h.
          let w = v.reason ifidx h in
          let ne : w.id ≢ id = λ e. false≢true (ground (arith, w.present, w.is_blocked)) in
          let old = v.linked.entered w.id w.ring w.id_in w.present in
          let apart : ring.hash_id ≢ w.ring.hash_id = λ same. ne (ground arith) in
          record {
            id = w.id;
            ring = w.ring;
            id_in = w.id_in;
            present = ground (arith, w.present);
            is_blocked = w.is_blocked;
            owner = ground (arith, w.owner);
          };
    }

delete-ring :
    (flow flow1 : Flowring) (id : ℕ) (ring : FlowRing)
    → ring_slot flow id ≡ some (some ring)
    → block flow id false ≡ some flow1
    → delete flow id ≡ some (remove_ring flow1 id ring)
unfolding delete delete_ring
delete-ring flow flow1 id ring at e =
    ap (λ slot. slot >>= delete_ring flow id) at
    ∙ ap (λ (o : Option Flowring). o >>= λ f. some (remove_ring f id ring)) e

-- From an accountable state, delete of a ring that exists does not fault: it removes the ring and
-- hands its packets, in the order of the queue, to brcmf_txfinalize; the entry of the ring in the
-- table is free again, the other rings and entries are as they were, and the state stays
-- accountable.
pub delete-IsAccountable :
    (flow : Flowring) (id : ℕ) (ring : FlowRing)
    → ring_at flow id ≡ some ring
    → IsAccountable flow
    → (flow' : Flowring) × (delete flow id ≡ some flow')
      × IsAccountable flow'
      × (flow'.rings id ≡ none)
      × (is_free (flow'.hash ring.hash_id) ≡ true)
      × ((j : ℕ) → id ≢ j → flow'.rings j ≡ flow.rings j)
      × ((i : ℕ) → ring.hash_id ≢ i → flow'.hash i ≡ flow.hash i)
      × (flow'.finalized ≡ reverse ring.skblist ++ flow.finalized)
unfolding remove_ring
delete-IsAccountable flow id ring at v =
    let (id_in, there) = ring_at-some flow id ring at in
    let (flow1, e, v1, there1, hash1, n1, done1, others1) =
      block-IsAccountable flow id ring false at v in
    let v2 =
      remove_ring-IsAccountable flow1 id (record ring { blocked = false }) (rw n1 id_in) there1 refl
        v1 in
    (
      remove_ring flow1 id ring,
      delete-ring flow flow1 id ring (ground arith) e,
      v2,
      ground arith,
      ground arith,
      λ j n. ground (arith, others1 j n),
      λ i n. ground (arith, hash1),
      finalize_lem ring.skblist flow1.finalized ∙ ap (λ s. reverse ring.skblist ++ s) done1,
    )
