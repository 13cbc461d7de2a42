-- ===== src/Msgbuf/Pktids/Ledger.antt =====
-- msgbuf.c: the packet ids in use and the DMA mappings, through sequences of operations.
use native.Mathlib.Decide.{ℕ_discrete}
use omdrop_awdl.Prelude.{
  ℕ, zero, suc, ◌+◌, ◌^◌, ◌≤◌, ◌<◌, ◌≡◌, refl, Bool, true, false, Option, none, some, leb, update,
  arith, sym, Bool-cases, inl, inr,
}
use omdrop_awdl.Msgbuf.Pktids.{
  Pktid, Pktids, init_pktids, fill, alloc_pktid, freed, get_pktid, release_below, release_array,
}
use omdrop_awdl.Msgbuf.Pktids.Search.{find_free-some}

abbrev pub bit : Bool → ℕ
bit true = 1
bit false = 0

-- The entries below `n` that are in use.
unfoldable pub in_use : (ℕ → Pktid) → ℕ → ℕ
in_use array zero = 0
in_use array (suc n) = in_use array n + bit (array n).allocated

pub record IsSound (pktids : Pktids) : Type 0 where
  pub fits : pktids.array_size < 2 ^ 32
  pub last_in : pktids.last_allocated_idx < pktids.array_size
  pub mapped_once : pktids.mapped ≡ in_use pktids.array pktids.array_size

in_use-outside :
    (array : ℕ → Pktid) (idx n : ℕ) (e : Pktid)
    → n ≤ idx
    → in_use (update array idx e) n ≡ in_use array n
unfolding in_use
in_use-outside array idx zero e h = refl
in_use-outside array idx (suc n) e h =
    let rest = in_use-outside array idx n e (omega arith) in ground arith

in_use-update :
    (array : ℕ → Pktid) (idx n : ℕ) (e : Pktid)
    → idx < n
    → in_use (update array idx e) n + bit (array idx).allocated ≡ in_use array n + bit e.allocated
unfolding in_use
in_use-update array idx zero e h = elim h [ ]
in_use-update array idx (suc n) e h = elim (ℕ_discrete idx n) [
  | yes same ↦ let rest = in_use-outside array idx n e (omega arith) in ground arith
  | no ne ↦ let rest = in_use-update array idx n e (omega arith) in ground arith
]

fill-IsSound :
    (pktids : Pktids) (skb data_offset physaddr : ℕ) (slot : Option ℕ)
    → IsSound pktids
    → ((i : ℕ) → slot ≡ some i → (i < pktids.array_size) × ((pktids.array i).allocated ≡ false))
    → IsSound (fill pktids skb data_offset physaddr slot).1
unfolding fill
fill-IsSound pktids skb data_offset physaddr none v h = v
fill-IsSound pktids skb data_offset physaddr (some idx) v h =
    let (idx_in, idle) = h idx refl in
    let change =
      in_use-update pktids.array idx pktids.array_size
        (record { allocated = true; data_offset = data_offset; skb = skb; physaddr = physaddr })
        idx_in in
    record {
      fits = v.fits;
      last_in = idx_in;
      mapped_once = omega (arith, v.mapped_once, rw idle at change);
    }

pub alloc_pktid-IsSound :
    (pktids : Pktids) (skb data_offset : ℕ) (physaddr : Option ℕ)
    → IsSound pktids
    → IsSound (alloc_pktid pktids skb data_offset physaddr).1
unfolding alloc_pktid
alloc_pktid-IsSound pktids skb data_offset none v = v
alloc_pktid-IsSound pktids skb data_offset (some physaddr) v =
    fill-IsSound pktids skb data_offset physaddr _ v λ i e.
      find_free-some pktids.array pktids.array_size pktids.last_allocated_idx pktids.array_size i
        v.last_in v.fits e

freed-IsSound :
    (pktids : Pktids) (idx : ℕ)
    → IsSound pktids
    → idx < pktids.array_size
    → (pktids.array idx).allocated ≡ true
    → IsSound (freed pktids idx)
freed-IsSound pktids idx v idx_in busy =
    let change =
      in_use-update pktids.array idx pktids.array_size
        (record (pktids.array idx) { allocated = false }) idx_in in
    record {
      fits = v.fits;
      last_in = v.last_in;
      mapped_once = omega (arith, v.mapped_once, rw busy at change);
    }

pub get_pktid-IsSound :
    (pktids : Pktids) (idx : ℕ) → IsSound pktids → IsSound (get_pktid pktids idx).1
unfolding get_pktid
get_pktid-IsSound pktids idx v = elim (Bool-cases (leb pktids.array_size idx)) [
  | inl e ↦ rw e v
  | inr e ↦ elim (Bool-cases (pktids.array idx).allocated) [
    | inl busy ↦ rw (e, busy) (freed-IsSound pktids idx v (ground arith) busy)
    | inr idle ↦ rw (e, idle) v
  ]
]

pub data Step : Pktids → Pktids → Type 0 where
  allocs :
      {pktids : Pktids} (skb data_offset : ℕ) (physaddr : Option ℕ)
      → Step pktids (alloc_pktid pktids skb data_offset physaddr).1
  gets : {pktids : Pktids} (idx : ℕ) → Step pktids (get_pktid pktids idx).1

pub data Reach (start : Pktids) : Pktids → Type 0 where
  here : Reach start start
  step : {pktids pktids' : Pktids} → Reach start pktids → Step pktids pktids' → Reach start pktids'

Step-IsSound : {pktids pktids' : Pktids} → Step pktids pktids' → IsSound pktids → IsSound pktids'
Step-IsSound (allocs skb data_offset physaddr) v = alloc_pktid-IsSound _ skb data_offset physaddr v
Step-IsSound (gets idx) v = get_pktid-IsSound _ idx v

in_use_none : (n : ℕ) (e : Pktid) → e.allocated ≡ false → in_use (λ i. e) n ≡ 0
unfolding in_use
in_use_none zero e h = refl
in_use_none (suc n) e h = let rest = in_use_none n e h in rw h (omega arith)

init_pktids-IsSound : (n : ℕ) → 0 < n → n < 2 ^ 32 → IsSound (init_pktids n)
unfolding init_pktids
init_pktids-IsSound n h h' = record {
  fits = h';
  last_in = h;
  mapped_once = sym (in_use_none n _ refl);
}

pub reached-IsSound :
    (n : ℕ) (pktids : Pktids) → 0 < n → n < 2 ^ 32 → Reach (init_pktids n) pktids → IsSound pktids
reached-IsSound n pktids h h' here = init_pktids-IsSound n h h'
reached-IsSound n pktids h h' (step r s) = Step-IsSound s (reached-IsSound n _ h h' r)

release_below_lem :
    (array : ℕ → Pktid) (mapped n : ℕ)
    → in_use array n ≤ mapped
    → (release_below array mapped n).1 + in_use array n ≡ mapped
unfolding release_below in_use
release_below_lem array mapped zero h = omega arith
release_below_lem array mapped (suc n) h = elim (Bool-cases (array n).allocated) [
  | inl e ↦
      let room = rw e at h in
      let rest = release_below_lem array mapped n (omega arith) in rw e (omega arith)
  | inr e ↦
      let room = rw e at h in
      let rest = release_below_lem array mapped n (omega arith) in rw e (omega arith)
]

-- From init with at least one entry and fewer than 2 ^ 32, after any allocations and returns of
-- packet ids, in any order and with any results of the mapping, the live DMA mappings are as many
-- as the ids in use, and release_array leaves none.
pub Reach-mapped :
    (n : ℕ) (pktids : Pktids)
    → 0 < n
    → n < 2 ^ 32
    → Reach (init_pktids n) pktids
    → (pktids.mapped ≡ in_use pktids.array pktids.array_size) × ((release_array pktids).1 ≡ 0)
unfolding release_array
Reach-mapped n pktids h h' r =
    let v = reached-IsSound n pktids h h' r in
    let left =
      release_below_lem pktids.array pktids.mapped pktids.array_size
        (omega (arith, v.mapped_once)) in
    (v.mapped_once, omega (arith, v.mapped_once))
