-- ===== src/Msgbuf/Pktids.antt =====
-- msgbuf.c: the packet ids, which name the packets that the firmware holds.
pub mod Search
pub mod Ledger
pub mod Use
use omdrop_awdl.Prelude.{
  ℕ, zero, suc, ◌+◌, ◌-◌, Bool, true, false, Option, none, some, List, [], ◌∷◌, ◌==◌, leb, update,
  u32, if◌then◌else◌,
}

-- `struct brcmf_msgbuf_pktid`; a packet is the number of its buffer.
pub record Pktid : Type 0 where
  pub allocated : Bool
  pub data_offset : ℕ
  pub skb : ℕ
  pub physaddr : ℕ

-- `struct brcmf_msgbuf_pktids`. `mapped` is the number of DMA mappings that are live: one more for
-- each dma_map_single that succeeds, one less for each dma_unmap_single.
pub record Pktids : Type 0 where
  pub array_size : ℕ
  pub last_allocated_idx : ℕ
  pub array : ℕ → Pktid
  pub mapped : ℕ

unfoldable pub init_pktids : ℕ → Pktids
init_pktids nr_array_entries = record {
  array_size = nr_array_entries;
  last_allocated_idx = 0;
  array = λ i. record { allocated = false; data_offset = 0; skb = 0; physaddr = 0 };
  mapped = 0;
}

-- `(*idx)++; if (*idx == pktids->array_size) *idx = 0;`
abbrev pub next_idx : ℕ → ℕ → ℕ
next_idx array_size idx = if u32 (idx + 1) == array_size then 0 else u32 (idx + 1)

-- The loop of alloc_pktid, `rounds` times: the first free entry after `idx`. No other thread is
-- modelled between the test of an entry and the exchange that takes it.
unfoldable pub find_free : (ℕ → Pktid) → ℕ → ℕ → ℕ → Option ℕ
find_free array array_size idx zero = none
find_free array array_size idx (suc rounds) =
    let i : ℕ = next_idx array_size idx in
    let rest : Option ℕ = find_free array array_size i rounds in
    if (array i).allocated then rest else some i

-- The entry that was found is filled in. If there is none, the mapping is undone.
unfoldable pub fill : Pktids → ℕ → ℕ → ℕ → Option ℕ → Option ℕ × Pktids
fill pktids skb data_offset physaddr none = (none, pktids)
fill pktids skb data_offset physaddr (some idx) = (
  some idx,
  record pktids {
    array =
        update pktids.array idx
          (record { allocated = true; data_offset = data_offset; skb = skb; physaddr = physaddr });
    last_allocated_idx = idx;
    mapped = pktids.mapped + 1;
  },
)

-- The index, or `none` for -ENOMEM. `physaddr` is what dma_map_single returns, if it succeeds.
-- There is at least one entry.
unfoldable pub alloc_pktid : Pktids → ℕ → ℕ → Option ℕ → Option ℕ × Pktids
alloc_pktid pktids skb data_offset none = (none, pktids)
alloc_pktid pktids skb data_offset (some physaddr) =
    fill pktids skb data_offset physaddr
      (find_free pktids.array pktids.array_size pktids.last_allocated_idx pktids.array_size)

abbrev pub freed : Pktids → ℕ → Pktids
freed pktids idx = record pktids {
  array = update pktids.array idx (record (pktids.array idx) { allocated = false });
  mapped = pktids.mapped - 1;
}

-- The packet, or `none` for NULL.
unfoldable pub get_pktid : Pktids → ℕ → Option ℕ × Pktids
get_pktid pktids idx =
    if leb pktids.array_size idx
    then (none, pktids)
    else (if (pktids.array idx).allocated
        then (some (pktids.array idx).skb, freed pktids idx)
        else (none, pktids))

-- The loop of release_array over the entries below `n`: the packets it frees, the last entry's
-- first, and the mappings that are left. There is at least one entry.
unfoldable pub release_below : (ℕ → Pktid) → ℕ → ℕ → List ℕ × ℕ
release_below array mapped zero = ([], mapped)
release_below array mapped (suc count) =
    let (skbs, left) = release_below array mapped count in
    if (array count).allocated then ((array count).skb ∷ skbs, left - 1) else (skbs, left)

unfoldable pub release_array : Pktids → List ℕ × ℕ
release_array pktids = release_below pktids.array pktids.mapped pktids.array_size
