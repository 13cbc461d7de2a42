-- ===== src/Msgbuf/Tx/Named.antt =====
-- msgbuf.c: the ids by which posted headers name their packets, as ids are allocated and given back.
use omdrop_awdl.Prelude.{
  ℕ, ◌+◌, ◌<◌, ◌≡◌, ◌⊎◌, inl, inr, refl, ◌∙◌, ap, true, Option, none, some, List, [], ◌∷◌, ◌++◌,
  arith,
}
use omdrop_awdl.Msgbuf.Pktids.{Pktids, alloc_pktid, fill, find_free, get_pktid}
use omdrop_awdl.Msgbuf.Pktids.Search.{find_free-some, find_free-none}
use omdrop_awdl.Msgbuf.Pktids.Ledger.{IsSound}
use omdrop_awdl.Msgbuf.Tx.Headers.{TxHeader}

pub record IsNamed (pktids : Pktids) (h : TxHeader) : Type 0 where
  pub idx : ℕ
  pub idx_in : idx < pktids.array_size
  pub id : h.request_id ≡ idx + 1
  pub busy : (pktids.array idx).allocated ≡ true
  pub its_skb : (pktids.array idx).skb ≡ h.skb.id

abbrev pub AllNamed : Pktids → List TxHeader → Type 0
AllNamed pktids [] = Unit
AllNamed pktids (h ∷ hs) = IsNamed pktids h × AllNamed pktids hs

-- No entry that is in use changes.
pub record Keeps (pktids pktids' : Pktids) : Type 0 where
  pub same_size : pktids'.array_size ≡ pktids.array_size
  pub same_entry : (i : ℕ) → (pktids.array i).allocated ≡ true → pktids'.array i ≡ pktids.array i

IsNamed-kept :
    (pktids pktids' : Pktids) (h : TxHeader)
    → Keeps pktids pktids'
    → IsNamed pktids h
    → IsNamed pktids' h
IsNamed-kept pktids pktids' h k v =
    let same = k.same_entry v.idx v.busy in
    record {
      idx = v.idx;
      idx_in = rw k.same_size v.idx_in;
      id = v.id;
      busy = ap (λ e. e.allocated) same ∙ v.busy;
      its_skb = ap (λ e. e.skb) same ∙ v.its_skb;
    }

pub AllNamed-kept :
    (pktids pktids' : Pktids) (hs : List TxHeader)
    → Keeps pktids pktids'
    → AllNamed pktids hs
    → AllNamed pktids' hs
AllNamed-kept pktids pktids' [] k v = tt
AllNamed-kept pktids pktids' (h ∷ hs) k v =
    (IsNamed-kept pktids pktids' h k v.0, AllNamed-kept pktids pktids' hs k v.1)

pub AllNamed-append :
    (pktids : Pktids) (hs : List TxHeader) (h : TxHeader)
    → AllNamed pktids hs
    → IsNamed pktids h
    → AllNamed pktids (hs ++ (h ∷ []))
AllNamed-append pktids [] h v w = (w, tt)
AllNamed-append pktids (h' ∷ hs) h v w = (v.0, AllNamed-append pktids hs h v.1 w)

-- Why there is no id: the buffer cannot be mapped, or every id is in use.
abbrev pub NoId : Pktids → Option ℕ → Type 0
NoId pktids physaddr =
    (physaddr ≡ none) ⊎ ((i : ℕ) → i < pktids.array_size → (pktids.array i).allocated ≡ true)

-- An id that has been given, and that can be given back.
pub record Given (pktids pktids' : Pktids) (skb idx : ℕ) : Type 0 where
  pub idx_in : idx < pktids'.array_size
  pub busy : (pktids'.array idx).allocated ≡ true
  pub its_skb : (pktids'.array idx).skb ≡ skb
  pub keeps : Keeps pktids pktids'
  pub keeps_back : Keeps pktids (get_pktid pktids' idx).1

fill-cases :
    (pktids : Pktids) (skb data_offset physaddr : ℕ) (slot : Option ℕ)
    → IsSound pktids
    → find_free pktids.array pktids.array_size pktids.last_allocated_idx pktids.array_size ≡ slot
    → ((fill pktids skb data_offset physaddr slot ≡ (none, pktids)) × NoId pktids (some physaddr))
      ⊎ ((idx : ℕ) × (pktids' : Pktids) × (fill pktids skb data_offset physaddr slot
            ≡ (some idx, pktids'))
          × Given pktids pktids' skb idx)
unfolding fill
fill-cases pktids skb data_offset physaddr none v e = inl (
  refl,
  inr λ i b.
      find_free-none pktids.array pktids.array_size pktids.last_allocated_idx v.last_in v.fits e i
        b,
)
fill-cases pktids skb data_offset physaddr (some idx) v e =
    let (idx_in, idle) =
      find_free-some pktids.array pktids.array_size pktids.last_allocated_idx pktids.array_size idx
        v.last_in v.fits e in
    inr (
      idx,
      (fill pktids skb data_offset physaddr (some idx)).1,
      refl,
      record {
        idx_in = idx_in;
        busy = ground arith;
        its_skb = ground arith;
        keeps = record { same_size = refl; same_entry = λ i b. ground arith };
        keeps_back = record {
          same_size = unfold get_pktid in ground arith;
          same_entry = λ i b. unfold get_pktid in ground arith;
        };
      },
    )

-- On sound ids an allocation gives an id, or changes nothing and there is a reason.
pub alloc_pktid-cases :
    (pktids : Pktids) (skb data_offset : ℕ) (physaddr : Option ℕ)
    → IsSound pktids
    → ((alloc_pktid pktids skb data_offset physaddr ≡ (none, pktids)) × NoId pktids physaddr)
      ⊎ ((idx : ℕ) × (pktids' : Pktids) × (alloc_pktid pktids skb data_offset physaddr
            ≡ (some idx, pktids'))
          × Given pktids pktids' skb idx)
unfolding alloc_pktid
alloc_pktid-cases pktids skb data_offset none v = inl (refl, inl refl)
alloc_pktid-cases pktids skb data_offset (some physaddr) v =
    fill-cases pktids skb data_offset physaddr _ v refl
