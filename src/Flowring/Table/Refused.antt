-- ===== src/Flowring/Table/Refused.antt =====
-- flowring.c: the answers by which create refuses, and the ring that lookup finds.
use native.Mathlib.Decide.{ℕ_discrete}
use omdrop_awdl.Prelude.{
  ℕ, ◌≤◌, ◌<◌, ◌≡◌, ◌≢◌, ◌⊎◌, inl, inr, refl, Bool, true, Option, none, some, arith, Option-cases,
  Bool-cases,
}
use omdrop_awdl.Flowring.{
  Mac, hashsize, invalid_ifidx, invalid_id, enomem_id, FlowRing, Flowring, ring_at,
}
use omdrop_awdl.Flowring.Table.{
  Key, key, hash_start, matches, probe, first_null, entry_id, claim_entry, lookup, create,
}
use omdrop_awdl.Flowring.Table.Probe.{probe-some, first_null_lem}
use omdrop_awdl.Flowring.Table.Find.{matches-ifidx}
use omdrop_awdl.Flowring.Table.Linked.{IsLinked, key_ifidx}

claim_entry-refused :
    (kzalloc : Bool) (flow : Flowring) (k : Key) (slot : Option ℕ)
    → flow.nrofrings ≤ (claim_entry kzalloc flow k slot).0
    → ((claim_entry kzalloc flow k slot).0 ≡ invalid_id)
      ⊎ ((claim_entry kzalloc flow k slot).0 ≡ enomem_id)
unfolding claim_entry
claim_entry-refused kzalloc flow k none h = inl refl
claim_entry-refused kzalloc flow k (some j) h =
    elim (ℕ_discrete (first_null flow.rings 0 flow.nrofrings) flow.nrofrings) [
      | yes e ↦ inr (ground arith)
      | no ne ↦ elim (Bool-cases kzalloc) [
        | inl e ↦
            let lem = first_null_lem flow.rings 0 flow.nrofrings (omega arith) in
            absurd (ground arith)
        | inr e ↦ inr (ground arith)
      ]
    ]

-- An answer that is no ring's number is BRCMF_FLOWRING_INVALID_ID or -ENOMEM.
pub create-refused :
    (kzalloc : Bool) (flow : Flowring) (da : Mac) (prio ifidx : ℕ)
    → flow.nrofrings ≤ (create kzalloc flow da prio ifidx).0
    → ((create kzalloc flow da prio ifidx).0 ≡ invalid_id)
      ⊎ ((create kzalloc flow da prio ifidx).0 ≡ enomem_id)
unfolding create
create-refused kzalloc flow da prio ifidx h = claim_entry-refused kzalloc flow _ _ h

-- What lookup finds is a ring, which it names in the table.
pub lookup-some :
    (flow : Flowring) (da : Mac) (prio ifidx : ℕ)
    → IsLinked flow
    → ifidx ≢ invalid_ifidx
    → lookup flow da prio ifidx ≢ invalid_id
    → (ring : FlowRing) × (lookup flow da prio ifidx < flow.nrofrings)
      × (ring_at flow (lookup flow da prio ifidx) ≡ some ring)
      × (matches (key flow da prio ifidx) (flow.hash ring.hash_id) ≡ true)
unfolding lookup entry_id
lookup-some flow da prio ifidx v known found =
    let k = key flow da prio ifidx in
    elim (Option-cases (probe (matches k) flow.hash (hash_start k) hashsize)) [
      | inl e ↦ absurd (found (rw e refl))
      | inr (j, e) ↦
          let (hit, j_in) =
            probe-some (matches k) flow.hash (hash_start k) hashsize j (omega arith) e in
          let (ring, id_in, there, back) =
            v.listed j j_in
              (matches-ifidx k (flow.hash j) hit (key_ifidx flow da prio ifidx known)) in
          rw e (ring, id_in, ground arith, rw back hit)
    ]
