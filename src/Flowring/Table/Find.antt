-- ===== src/Flowring/Table/Find.antt =====
-- flowring.c: lookup after create.
use native.Mathlib.Decide.{ℕ_discrete}
use mathlib.Core.Bool.{false≢true}
use omdrop_awdl.Prelude.{
  ℕ, ◌<◌, ◌≡◌, ◌≢◌, refl, Bool, true, false, Option, none, some, update, arith, Option-cases, inl,
  inr, ◌∙◌, ap, sym,
}
use omdrop_awdl.Flowring.{Mac, hashsize, invalid_ifidx, invalid_id, HashEntry, Flowring}
use omdrop_awdl.Flowring.Table.{
  Key, key, hash_start, matches, is_free, probe, add_ring, entry_id, lookup, create,
}
use omdrop_awdl.Flowring.Table.Probe.{probe-some, probe-cong, probe-update, free-not-matches}
use omdrop_awdl.Flowring.Table.Linked.{IsLinked, create-cases, key_ifidx}

abbrev pub entry : Key → ℕ → HashEntry
entry k id = record { mac = k.mac; fifo = k.fifo; ifidx = k.ifidx; flowid = id }

key-matches : (k : Key) (id : ℕ) → matches k (entry k id) ≡ true
key-matches k id = ground arith

key-add_ring :
    (flow : Flowring) (k : Key) (j id : ℕ) (da : Mac) (prio ifidx : ℕ)
    → key (add_ring flow k j id) da prio ifidx ≡ key flow da prio ifidx
unfolding key add_ring
key-add_ring flow k j id da prio ifidx = refl

hash-add_ring :
    (flow : Flowring) (k : Key) (j id : ℕ)
    → (add_ring flow k j id).hash ≡ update flow.hash j (entry k id)
unfolding add_ring
hash-add_ring flow k j id = refl

pub matches-ifidx :
    (k : Key) (e : HashEntry)
    → matches k e ≡ true
    → k.ifidx ≢ invalid_ifidx
    → e.ifidx ≢ invalid_ifidx
matches-ifidx k e h known = ground arith

lookup-add_ring :
    (flow : Flowring) (k : Key) (j id : ℕ) (da : Mac) (prio ifidx : ℕ)
    → let k' = key flow da prio ifidx in
      lookup (add_ring flow k j id) da prio ifidx
      ≡ entry_id
          (add_ring flow k j id)
          (probe (matches k') (update flow.hash j (entry k id)) (hash_start k') hashsize)
unfolding lookup
lookup-add_ring flow k j id da prio ifidx =
    rw (key-add_ring flow k j id da prio ifidx, hash-add_ring flow k j id)

entry_id-new :
    (flow : Flowring) (k : Key) (j id : ℕ) → entry_id (add_ring flow k j id) (some j) ≡ id
unfolding entry_id add_ring
entry_id-new flow k j id = ground arith

entry_id-old :
    (flow : Flowring) (k : Key) (i j id : ℕ)
    → i ≢ j
    → entry_id (add_ring flow k j id) (some i) ≡ entry_id flow (some i)
unfolding entry_id add_ring
entry_id-old flow k i j id h = ground arith

-- A key that nothing is found under fails the test at every entry that the loop visits.
lookup-none :
    (flow : Flowring) (da : Mac) (prio ifidx : ℕ)
    → IsLinked flow
    → ifidx ≢ invalid_ifidx
    → lookup flow da prio ifidx ≡ invalid_id
    → let k = key flow da prio ifidx in probe (matches k) flow.hash (hash_start k) hashsize ≡ none
unfolding lookup entry_id
lookup-none flow da prio ifidx v known h =
    let k : Key = key flow da prio ifidx in
    elim (Option-cases (probe (matches k) flow.hash (hash_start k) hashsize)) [
      | inl e ↦ e
      | inr (j, e) ↦
          let hit = probe-some (matches k) flow.hash (hash_start k) hashsize j (omega arith) e in
          let listed =
            v.listed j hit.1
              (matches-ifidx k (flow.hash j) hit.0 (key_ifidx flow da prio ifidx known)) in
          let code : (flow.hash j).flowid ≡ invalid_id = ap (entry_id flow) (sym e) ∙ h in
          absurd (omega (arith, code, listed.1, v.fits))
    ]

-- A write that the test does not see.
update-blind :
    (test : HashEntry → Bool) (hash : ℕ → HashEntry) (j : ℕ) (e : HashEntry)
    → test e ≡ false
    → test (hash j) ≡ false
    → (i : ℕ) → test (update hash j e i) ≡ test (hash i)
update-blind test hash j e new old i = elim (ℕ_discrete j i) [
  | yes same ↦ rw (← same) (ground arith)
  | no n ↦ ground arith
]

lookup_lem :
    (flow : Flowring) (da : Mac) (prio ifidx : ℕ)
    → let k = key flow da prio ifidx in
      lookup flow da prio ifidx
      ≡ entry_id flow (probe (matches k) flow.hash (hash_start k) hashsize)
unfolding lookup
lookup_lem flow da prio ifidx = refl

-- What the loop finds in the old table is not the entry that is written.
entry_id-probe :
    (flow : Flowring) (k : Key) (j id : ℕ) (k' : Key)
    → matches k' (flow.hash j) ≡ false
    → let found = probe (matches k') flow.hash (hash_start k') hashsize in
      entry_id (add_ring flow k j id) found ≡ entry_id flow found
entry_id-probe flow k j id k' blind =
    let found : Option ℕ = probe (matches k') flow.hash (hash_start k') hashsize in
    elim (Option-cases found) [
      | inl e ↦ rw e (unfold entry_id in refl)
      | inr (i, e) ↦
          let hit = probe-some (matches k') flow.hash (hash_start k') hashsize i (omega arith) e in
          rw e (
            entry_id-old flow k i j id (λ same.
              false≢true (sym blind ∙ ap (λ t. matches k' (flow.hash t)) (sym same) ∙ hit.0)))
    ]

-- In a linked state, on an interface other than 0xff, a ring that create adds for packets that had
-- none is the one that lookup then gives them.
pub lookup-create :
    (kzalloc : Bool) (flow : Flowring) (da : Mac) (prio ifidx : ℕ)
    → IsLinked flow
    → ifidx ≢ invalid_ifidx
    → lookup flow da prio ifidx ≡ invalid_id
    → (create kzalloc flow da prio ifidx).0 < flow.nrofrings
    → lookup (create kzalloc flow da prio ifidx).1 da prio ifidx
      ≡ (create kzalloc flow da prio ifidx).0
lookup-create kzalloc flow da prio ifidx v known missing added =
    let k : Key = key flow da prio ifidx in
    elim (create-cases kzalloc flow da prio ifidx v.fits) [
      | inl (refused, _) ↦ absurd (omega arith)
      | inr c ↦
          let id : ℕ = (create kzalloc flow da prio ifidx).0 in
          ap (λ f. lookup f da prio ifidx) c.added
          ∙ lookup-add_ring flow k c.entry id da prio ifidx
          ∙ ap (entry_id (add_ring flow k c.entry id)) (
              probe-update (matches k) is_free flow.hash (entry k id) (hash_start k) hashsize
                c.entry (key-matches k id) c.found c.entry_free
                (lookup-none flow da prio ifidx v known missing))
          ∙ entry_id-new flow k c.entry id
    ]

-- In a linked state create does not change the answer of lookup for packets, of an interface other
-- than 0xff, that the new entry does not match.
pub lookup-create_other :
    (kzalloc : Bool) (flow : Flowring) (da : Mac) (prio ifidx : ℕ) (da' : Mac) (prio' ifidx' : ℕ)
    → IsLinked flow
    → ifidx' ≢ invalid_ifidx
    → matches
        (key flow da' prio' ifidx')
        (entry (key flow da prio ifidx) (create kzalloc flow da prio ifidx).0)
      ≡ false
    → lookup (create kzalloc flow da prio ifidx).1 da' prio' ifidx' ≡ lookup flow da' prio' ifidx'
lookup-create_other kzalloc flow da prio ifidx da' prio' ifidx' v known other =
    let k : Key = key flow da prio ifidx in
    let k' : Key = key flow da' prio' ifidx' in
    elim (create-cases kzalloc flow da prio ifidx v.fits) [
      | inl (_, same) ↦ ap (λ f. lookup f da' prio' ifidx') same
      | inr c ↦
          let id : ℕ = (create kzalloc flow da prio ifidx).0 in
          let k'_known : k'.ifidx ≢ invalid_ifidx = key_ifidx flow da' prio' ifidx' known in
          let blind = free-not-matches k' (flow.hash c.entry) k'_known c.entry_free in
          ap (λ f. lookup f da' prio' ifidx') c.added
          ∙ lookup-add_ring flow k c.entry id da' prio' ifidx'
          ∙ ap (entry_id (add_ring flow k c.entry id)) (
              probe-cong (matches k') flow.hash (update flow.hash c.entry (entry k id))
                (update-blind (matches k') flow.hash c.entry (entry k id) other blind)
                (hash_start k') hashsize)
          ∙ entry_id-probe flow k c.entry id k' blind
          ∙ sym (lookup_lem flow da' prio' ifidx')
    ]
