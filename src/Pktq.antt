-- ===== src/Pktq.antt =====
-- brcmutil/utils.c and include/brcmu_utils.h: the packet queue with several precedences. A packet is
-- the number of its buffer. The array of queues is a function; what is freed is collected in a list.
pub mod Total
pub mod Keeps
pub mod Taken
pub mod Life
pub mod Hint
pub mod Order
pub mod Sums
pub mod Flush
use omdrop_awdl.Prelude.{
  ℕ, zero, suc, ◌+◌, ◌/◌, ◌%◌, ◌^◌, Bool, true, false, not, ◌&&◌, ◌||◌, Option, none, some, List,
  [], ◌∷◌, ◌++◌, ◌==◌, ltb, leb, length, update, u8, u16, sub16, if◌then◌else◌,
}

pub record PktqPrec : Type 0 where
  pub skblist : List ℕ
  pub max : ℕ

pub record Pktq : Type 0 where
  pub num_prec : ℕ
  pub hi_prec : ℕ
  pub max : ℕ
  pub len : ℕ
  pub q : ℕ → PktqPrec

abbrev pub is_empty : List ℕ → Bool
is_empty [] = true
is_empty (p ∷ ps) = false

abbrev pub full : Pktq → Bool
full pq = leb pq.max pq.len

abbrev pub empty : Pktq → Bool
empty pq = pq.len == 0

abbrev pub pfull : Pktq → ℕ → Bool
pfull pq prec = leb (pq.q prec).max (length (pq.q prec).skblist)

-- The queue of one precedence is replaced.
abbrev pub with_list : (ℕ → PktqPrec) → ℕ → List ℕ → ℕ → PktqPrec
with_list q prec skblist = update q prec (record (q prec) { skblist = skblist })

-- What both ways to enqueue do when they have put the packet in.
abbrev pub grown : Pktq → ℕ → List ℕ → Pktq
grown pq prec skblist = record pq {
  q = with_list pq.q prec skblist;
  len = u16 (pq.len + 1);
  hi_prec = if ltb pq.hi_prec prec then u8 prec else pq.hi_prec;
}

-- What every way to dequeue does when it has taken a packet out.
abbrev pub shrunk : Pktq → ℕ → List ℕ → Pktq
shrunk pq prec skblist = record pq { q = with_list pq.q prec skblist; len = sub16 pq.len 1 }

-- `none` is the NULL that a function returns.
unfoldable pub penq : Pktq → ℕ → ℕ → Option ℕ × Pktq
penq pq prec p =
    if full pq || pfull pq prec
    then (none, pq)
    else (some p, grown pq prec ((pq.q prec).skblist ++ (p ∷ [])))

unfoldable pub penq_head : Pktq → ℕ → ℕ → Option ℕ × Pktq
penq_head pq prec p =
    if full pq || pfull pq prec
    then (none, pq)
    else (some p, grown pq prec (p ∷ (pq.q prec).skblist))

-- The packet that is taken from a queue, and what is left.
unfoldable pub take_out : Pktq → ℕ → Option (ℕ × List ℕ) → Option ℕ × Pktq
take_out pq prec none = (none, pq)
take_out pq prec (some (p, rest)) = (some p, shrunk pq prec rest)

-- skb_dequeue, skb_dequeue_tail, and the walk of pdeq_match. A NULL function matches each packet.
unfoldable pub first_of : List ℕ → Option (ℕ × List ℕ)
first_of [] = none
first_of (p ∷ ps) = some (p, ps)

abbrev pub put_back : ℕ → Option (ℕ × List ℕ) → Option (ℕ × List ℕ)
put_back p none = none
put_back p (some (x, rest)) = some (x, p ∷ rest)

abbrev pub last_of_cons : ℕ → Option (ℕ × List ℕ) → Option (ℕ × List ℕ)
last_of_cons p none = some (p, [])
last_of_cons p (some (x, rest)) = some (x, p ∷ rest)

unfoldable pub last_of : List ℕ → Option (ℕ × List ℕ)
last_of [] = none
last_of (p ∷ ps) = last_of_cons p (last_of ps)

abbrev pub accepts : Option (ℕ → Bool) → ℕ → Bool
accepts none p = true
accepts (some fn) p = fn p

unfoldable pub match_of : Option (ℕ → Bool) → List ℕ → Option (ℕ × List ℕ)
match_of match_fn [] = none
match_of match_fn (p ∷ ps) =
    let rest : Option (ℕ × List ℕ) = match_of match_fn ps in
    if accepts match_fn p then some (p, ps) else put_back p rest

unfoldable pub pdeq : Pktq → ℕ → Option ℕ × Pktq
pdeq pq prec = take_out pq prec (first_of (pq.q prec).skblist)

unfoldable pub pdeq_tail : Pktq → ℕ → Option ℕ × Pktq
pdeq_tail pq prec = take_out pq prec (last_of (pq.q prec).skblist)

unfoldable pub pdeq_match : Pktq → ℕ → Option (ℕ → Bool) → Option ℕ × Pktq
pdeq_match pq prec match_fn = take_out pq prec (match_of match_fn (pq.q prec).skblist)

-- The walk of pflush, with `len` along the way: the packets kept, those freed, and the length.
unfoldable pub flush_walk : Option (ℕ → Bool) → List ℕ → ℕ → List ℕ × List ℕ × ℕ
flush_walk fn [] len = ([], [], len)
flush_walk fn (p ∷ ps) len =
    let hit : List ℕ × List ℕ × ℕ = flush_walk fn ps (sub16 len 1) in
    let miss : List ℕ × List ℕ × ℕ = flush_walk fn ps len in
    if accepts fn p then (hit.0, p ∷ hit.1, hit.2) else (p ∷ miss.0, miss.1, miss.2)

unfoldable pub pflush : Pktq → ℕ → Option (ℕ → Bool) → List ℕ × Pktq
pflush pq prec fn =
    let (kept, freed, len) = flush_walk fn (pq.q prec).skblist pq.len in
    (freed, record pq { q = with_list pq.q prec kept; len = len })

-- The loop of flush from `prec` on, `left` precedences.
unfoldable pub flush_from : Option (ℕ → Bool) → Pktq → ℕ → ℕ → List ℕ × Pktq
flush_from fn pq prec zero = ([], pq)
flush_from fn pq prec (suc left) =
    let (freed, pq1) = pflush pq prec fn in
    let (freed', pq2) = flush_from fn pq1 (prec + 1) left in (freed ++ freed', pq2)

unfoldable pub flush : Pktq → Option (ℕ → Bool) → List ℕ × Pktq
flush pq fn = flush_from fn pq 0 pq.num_prec

unfoldable pub init : ℕ → ℕ → Pktq
init num_prec max_len = record {
  num_prec = u16 num_prec;
  hi_prec = 0;
  max = u16 max_len;
  len = 0;
  q = λ prec. record { skblist = []; max = u16 max_len };
}

-- The loop of peek_tail from `prec` on, `left` precedences below hi_prec.
unfoldable pub first_used : (ℕ → PktqPrec) → ℕ → ℕ → ℕ
first_used q prec zero = prec
first_used q prec (suc left) =
    let rest : ℕ = first_used q (prec + 1) left in
    if not (is_empty (q prec).skblist) then prec else rest

abbrev pub tail_of : ℕ → Option (ℕ × List ℕ) → Option (ℕ × ℕ)
tail_of prec none = none
tail_of prec (some (p, rest)) = some (prec, p)

-- The packet and `*prec_out`.
unfoldable pub peek_tail : Pktq → Option (ℕ × ℕ)
peek_tail pq =
    let prec : ℕ = first_used pq.q 0 pq.hi_prec in
    if empty pq then none else tail_of prec (last_of (pq.q prec).skblist)

-- `prec_bmp & (1 << prec)`
unfoldable pub in_bmp : ℕ → ℕ → Bool
in_bmp prec_bmp prec = (prec_bmp / 2 ^ prec) % 2 == 1

-- The sum over the precedences below `n`.
unfoldable pub mlen_below : (ℕ → PktqPrec) → ℕ → ℕ → ℕ
mlen_below q prec_bmp zero = 0
mlen_below q prec_bmp (suc prec) =
    mlen_below q prec_bmp prec + (if in_bmp prec_bmp prec then length (q prec).skblist else 0)

unfoldable pub mlen : Pktq → ℕ → ℕ
mlen pq prec_bmp = mlen_below pq.q prec_bmp (pq.hi_prec + 1)

-- The first loop of mdeq.
unfoldable pub lower_hi : (ℕ → PktqPrec) → ℕ → ℕ
lower_hi q zero = 0
lower_hi q (suc prec) =
    let rest : ℕ = lower_hi q prec in if is_empty (q (suc prec)).skblist then rest else suc prec

-- The second loop: none when it has passed precedence 0.
unfoldable pub highest_used : (ℕ → PktqPrec) → ℕ → ℕ → Option ℕ
highest_used q prec_bmp zero =
    if not (in_bmp prec_bmp 0) || is_empty (q 0).skblist then none else some 0
highest_used q prec_bmp (suc prec) =
    let rest : Option ℕ = highest_used q prec_bmp prec in
    if not (in_bmp prec_bmp (suc prec)) || is_empty (q (suc prec)).skblist
    then rest
    else some (suc prec)

-- The rest of mdeq; the packet comes with `*prec_out`.
abbrev pub with_prec : ℕ → Option ℕ × Pktq → Option (ℕ × ℕ) × Pktq
with_prec prec (none, pq) = (none, pq)
with_prec prec (some p, pq) = (some (prec, p), pq)

unfoldable pub mdeq_at : Pktq → Option ℕ → Option (ℕ × ℕ) × Pktq
mdeq_at pq none = (none, pq)
mdeq_at pq (some prec) = with_prec prec (take_out pq prec (first_of (pq.q prec).skblist))

unfoldable pub mdeq : Pktq → ℕ → Option (ℕ × ℕ) × Pktq
mdeq pq prec_bmp =
    let hi_prec : ℕ = lower_hi pq.q pq.hi_prec in
    if empty pq
    then (none, pq)
    else mdeq_at (record pq { hi_prec = hi_prec }) (highest_used pq.q prec_bmp hi_prec)
