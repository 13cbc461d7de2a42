-- ===== src/Flowring/Table/Linked.antt =====
-- The invariant that links the hash table with the rings, and `create` under it.
use native.Mathlib.Decide.{ℕ_discrete}
use omdrop_awdl.Prelude.{
  ℕ, ◌^◌, ◌≤◌, ◌<◌, ◌≡◌, ◌≢◌, refl, Bool, true, false, [], Option, none, some, arith, Bool-cases,
  inl, inr, ◌⊎◌,
}
use omdrop_awdl.Flowring.{Mac, hashsize, invalid_ifidx, closed, FlowRing, Flowring}
use omdrop_awdl.Flowring.Table.{
  Key, key, claim_entry, hash_start, is_free, probe, first_null, add_ring, create, attach,
}
use omdrop_awdl.Flowring.Table.Probe.{probe-some, first_null_lem}

-- The table entry of an interface and the ring that it names point at each other, and so do each
-- ring and its entry; an entry of no interface is free.
pub record IsLinked (flow : Flowring) : Type 0 where
  pub fits : flow.nrofrings < 2 ^ 16
  pub listed :
      (i : ℕ)
      → i < hashsize
      → (flow.hash i).ifidx ≢ invalid_ifidx
      → (ring : FlowRing) × ((flow.hash i).flowid < flow.nrofrings)
        × (flow.rings (flow.hash i).flowid ≡ some ring)
        × (ring.hash_id ≡ i)
  pub entered :
      (id : ℕ) (ring : FlowRing)
      → id < flow.nrofrings
      → flow.rings id ≡ some ring
      → (ring.hash_id < hashsize)
        × ((flow.hash ring.hash_id).ifidx ≢ invalid_ifidx)
        × ((flow.hash ring.hash_id).flowid ≡ id)
  pub cleared :
      (i : ℕ) → i < hashsize → (flow.hash i).ifidx ≡ invalid_ifidx → is_free (flow.hash i) ≡ true

pub attach-IsLinked : (nrofrings : ℕ) → nrofrings < 2 ^ 16 → IsLinked (attach nrofrings)
unfolding attach
attach-IsLinked nrofrings h = record {
  fits = h;
  listed = λ i b ne. absurd (ne refl);
  entered = λ id ring b e. absurd (ground arith);
  cleared = λ i b e. refl;
}

pub key_ifidx :
    (flow : Flowring) (da : Mac) (prio ifidx : ℕ)
    → ifidx ≢ invalid_ifidx
    → (key flow da prio ifidx).ifidx ≢ invalid_ifidx
unfolding key
key_ifidx flow da prio ifidx h = h

add_ring-IsLinked :
    (flow : Flowring) (k : Key) (j id : ℕ)
    → IsLinked flow
    → k.ifidx ≢ invalid_ifidx
    → j < hashsize
    → is_free (flow.hash j) ≡ true
    → id < flow.nrofrings
    → flow.rings id ≡ none
    → IsLinked (add_ring flow k j id)
unfolding add_ring
add_ring-IsLinked flow k j id v known j_in free id_in null = record {
  fits = v.fits;
  listed = λ i b ne. elim (ℕ_discrete j i) [
    | yes e ↦ (
      record { hash_id = j; blocked = false; status = closed; skblist = [] },
      ground arith,
      ground arith,
      e,
    )
    | no n ↦
        let (ring, lt, eq, back) = v.listed i b (ground arith) in
        (ring, ground arith, ground arith, back)
  ];
  entered = λ i ring b e. elim (ℕ_discrete id i) [
    | yes same ↦ (ground arith, ground arith, ground arith)
    | no n ↦ let old = v.entered i ring b (ground arith) in (old.0, ground arith, ground arith)
  ];
  cleared = λ i b e. ground (arith, v.cleared i b);
}

-- What the second half of create does: nothing, or a new ring under a free number.
claim_entry-cases :
    (kzalloc : Bool) (flow : Flowring) (k : Key) (slot : Option ℕ)
    → flow.nrofrings < 2 ^ 16
    → let (id, flow') = claim_entry kzalloc flow k slot in
      ((flow.nrofrings ≤ id) × (flow' ≡ flow))
      ⊎ ((j : ℕ) × (slot ≡ some j)
          × (flow' ≡ add_ring flow k j id)
          × (id < flow.nrofrings)
          × (flow.rings id ≡ none))
unfolding claim_entry
claim_entry-cases kzalloc flow k none fits = inl (omega arith, refl)
claim_entry-cases kzalloc flow k (some j) fits =
    elim (ℕ_discrete (first_null flow.rings 0 flow.nrofrings) flow.nrofrings) [
      | yes e ↦ inl (ground arith, ground arith)
      | no ne ↦ elim (Bool-cases kzalloc) [
        | inl e ↦
            let lem = first_null_lem flow.rings 0 flow.nrofrings (omega arith) in
            inr (j, refl, ground arith, ground arith, ground arith)
        | inr e ↦ inl (ground arith, ground arith)
      ]
    ]

-- The same of create: the table entry of a new ring was free.
pub record Created (flow : Flowring) (k : Key) (id : ℕ) (flow' : Flowring) : Type 0 where
  pub entry : ℕ
  pub found : probe is_free flow.hash (hash_start k) hashsize ≡ some entry
  pub entry_free : is_free (flow.hash entry) ≡ true
  pub entry_in : entry < hashsize
  pub added : flow' ≡ add_ring flow k entry id
  pub id_in : id < flow.nrofrings
  pub unused : flow.rings id ≡ none

pub create-cases :
    (kzalloc : Bool) (flow : Flowring) (da : Mac) (prio ifidx : ℕ)
    → flow.nrofrings < 2 ^ 16
    → let (id, flow') = create kzalloc flow da prio ifidx in
      ((flow.nrofrings ≤ id) × (flow' ≡ flow)) ⊎ Created flow (key flow da prio ifidx) id flow'
unfolding create
create-cases kzalloc flow da prio ifidx fits =
    let k : Key = key flow da prio ifidx in
    elim (claim_entry-cases kzalloc flow k (probe is_free flow.hash (hash_start k) hashsize) fits) [
      | inl refused ↦ inl refused
      | inr (j, found, added, id_in, unused) ↦
          let hit = probe-some is_free flow.hash (hash_start k) hashsize j (omega arith) found in
          inr (record {
            entry = j;
            found = found;
            entry_free = hit.0;
            entry_in = hit.1;
            added = added;
            id_in = id_in;
            unused = unused;
          })
    ]

-- create keeps the table and the rings linked, whether it adds a ring or refuses.
pub create-IsLinked :
    (kzalloc : Bool) (flow : Flowring) (da : Mac) (prio ifidx : ℕ)
    → ifidx ≢ invalid_ifidx
    → IsLinked flow
    → IsLinked (create kzalloc flow da prio ifidx).1
create-IsLinked kzalloc flow da prio ifidx known v =
    elim (create-cases kzalloc flow da prio ifidx v.fits) [
      | inl (_, same) ↦ rw same v
      | inr c ↦ rw c.added (
          add_ring-IsLinked flow (key flow da prio ifidx) c.entry _ v
            (key_ifidx flow da prio ifidx known) c.entry_in c.entry_free c.id_in c.unused)
    ]
