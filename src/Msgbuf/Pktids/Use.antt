-- ===== src/Msgbuf/Pktids/Use.antt =====
-- msgbuf.c: allocating a packet id and getting its packet back.
use omdrop_awdl.Prelude.{ℕ, ◌<◌, ◌≡◌, ◌≢◌, refl, true, false, Option, none, some, arith, sym}
use omdrop_awdl.Msgbuf.Pktids.{Pktids, find_free, fill, alloc_pktid, get_pktid}
use omdrop_awdl.Msgbuf.Pktids.Search.{find_free-some, find_free-none}
use omdrop_awdl.Msgbuf.Pktids.Ledger.{IsSound}

-- What an allocation with a mapping that succeeds does.
pub data IsAlloc (pktids : Pktids) (skb : ℕ) : Option ℕ × Pktids → Type 0 where
  exhausted :
      ((i : ℕ) → i < pktids.array_size → (pktids.array i).allocated ≡ true)
      → IsAlloc pktids skb (none, pktids)
  given :
      (idx : ℕ) (pktids' : Pktids)
      → idx < pktids.array_size
      → (pktids.array idx).allocated ≡ false
      → ((i : ℕ) → idx ≢ i → pktids'.array i ≡ pktids.array i)
      → (get_pktid pktids' idx).0 ≡ some skb
      → (get_pktid (get_pktid pktids' idx).1 idx).0 ≡ none
      → IsAlloc pktids skb (some idx, pktids')

fill-IsAlloc :
    (pktids : Pktids) (skb data_offset physaddr : ℕ) (slot : Option ℕ)
    → IsSound pktids
    → slot ≡ find_free pktids.array pktids.array_size pktids.last_allocated_idx pktids.array_size
    → IsAlloc pktids skb (fill pktids skb data_offset physaddr slot)
unfolding fill
fill-IsAlloc pktids skb data_offset physaddr none v e = exhausted λ i b.
    find_free-none pktids.array pktids.array_size pktids.last_allocated_idx v.last_in v.fits (sym e)
      i b
fill-IsAlloc pktids skb data_offset physaddr (some idx) v e =
    let (idx_in, idle) =
      find_free-some pktids.array pktids.array_size pktids.last_allocated_idx pktids.array_size idx
        v.last_in v.fits (sym e) in
    given idx (fill pktids skb data_offset physaddr (some idx)).1 idx_in idle (λ i n. ground arith)
      (unfold get_pktid in ground arith) (unfold get_pktid in ground arith)

-- On sound packet ids an allocation whose mapping succeeds gives an id that was not in use and
-- changes no other entry; the id gives the packet back, once. It is refused only if every id is in
-- use.
pub alloc_pktid-get_pktid :
    (pktids : Pktids) (skb data_offset physaddr : ℕ)
    → IsSound pktids
    → IsAlloc pktids skb (alloc_pktid pktids skb data_offset (some physaddr))
unfolding alloc_pktid
alloc_pktid-get_pktid pktids skb data_offset physaddr v =
    fill-IsAlloc pktids skb data_offset physaddr _ v refl
