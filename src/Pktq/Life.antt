-- ===== src/Pktq/Life.antt =====
-- brcmutil/utils.c: the packet queue through sequences of operations.
use native.Mathlib.Decide.{ℕ_discrete}
use omdrop_awdl.Prelude.{
  ℕ, zero, suc, ◌+◌, ◌^◌, ◌≤◌, ◌<◌, ◌≡◌, refl, Bool, Option, List, [], ◌∷◌, length, sub16, arith,
  ap, Bool-cases, inl, inr,
}
use omdrop_awdl.Pktq.{
  Pktq, penq, penq_head, accepts, pdeq, pdeq_tail, pdeq_match, flush_walk, pflush, flush_from,
  flush, mdeq,
}
use omdrop_awdl.Pktq.Total.{IsSound, total-with_list, total-member}
use omdrop_awdl.Pktq.{init}
use omdrop_awdl.Pktq.Order.{mdeq-IsSound}
use omdrop_awdl.Pktq.Total.{init-IsSound}
use omdrop_awdl.Pktq.Keeps.{penq-IsSound, penq_head-IsSound}
use omdrop_awdl.Pktq.Taken.{pdeq-IsSound, pdeq_tail-IsSound, pdeq_match-IsSound}

length-zero : (ps : List ℕ) → length ps ≡ 0 → ps ≡ []
length-zero [] h = refl
length-zero (p ∷ ps) h = absurd (omega arith)

flush_walk_lem :
    (fn : Option (ℕ → Bool)) (ps : List ℕ) (len : ℕ)
    → length ps ≤ len
    → len < 2 ^ 16
    → ((flush_walk fn ps len).2 + length ps ≡ len + length (flush_walk fn ps len).0)
      × (length (flush_walk fn ps len).0 ≤ length ps)
unfolding flush_walk
flush_walk_lem fn [] len h h' = (omega arith, omega arith)
flush_walk_lem fn (p ∷ ps) len h h' = elim (Bool-cases (accepts fn p)) [
  | inl e ↦
      let (sum, fewer) = flush_walk_lem fn ps (sub16 len 1) (omega arith) (omega arith) in
      (rw e (omega arith), rw e (omega arith))
  | inr e ↦
      let (sum, fewer) = flush_walk_lem fn ps len (omega arith) h' in
      (rw e (omega arith), rw e (omega arith))
]

pub pflush-IsSound :
    (pq : Pktq) (prec : ℕ) (fn : Option (ℕ → Bool))
    → IsSound pq
    → prec < pq.num_prec
    → IsSound (pflush pq prec fn).1
unfolding pflush
pflush-IsSound pq prec fn v h =
    let ps : List ℕ = (pq.q prec).skblist in
    let kept : List ℕ = (flush_walk fn ps pq.len).0 in
    let has = total-member pq.q prec pq.num_prec h in
    let small : pq.len < 2 ^ 16 = omega (arith, v.bounded, v.fits) in
    let (sum, fewer) = flush_walk_lem fn ps pq.len (omega (arith, v.counted)) small in
    let change = total-with_list pq.q prec pq.num_prec kept h in
    record {
      precs = v.precs;
      hi_in = v.hi_in;
      counted = omega (arith, v.counted);
      bounded = omega (arith, v.bounded);
      fits = v.fits;
      above = λ prec' b b'. elim (ℕ_discrete prec prec') [
        | yes e ↦
            let none_there = ap length (v.above prec h (omega arith)) in
            let nil = length-zero kept (omega arith) in ground arith
        | no n ↦ ground (arith, v.above prec' b b')
      ];
    }

flush_from-IsSound :
    (fn : Option (ℕ → Bool)) (pq : Pktq) (prec left : ℕ)
    → IsSound pq
    → prec + left ≡ pq.num_prec
    → IsSound (flush_from fn pq prec left).1
unfolding flush_from
flush_from-IsSound fn pq prec zero v h = v
flush_from-IsSound fn pq prec (suc left) v h =
    flush_from-IsSound fn (pflush pq prec fn).1 (prec + 1) left
      (pflush-IsSound pq prec fn v (omega arith)) (unfold pflush in omega arith)

flush-IsSound : (pq : Pktq) (fn : Option (ℕ → Bool)) → IsSound pq → IsSound (flush pq fn).1
unfolding flush
flush-IsSound pq fn v = flush_from-IsSound fn pq 0 pq.num_prec v (omega arith)

-- One operation on a precedence in use.
pub data Step : Pktq → Pktq → Type 0 where
  penqs : {pq : Pktq} (prec p : ℕ) → prec < pq.num_prec → Step pq (penq pq prec p).1
  penq_heads : {pq : Pktq} (prec p : ℕ) → prec < pq.num_prec → Step pq (penq_head pq prec p).1
  pdeqs : {pq : Pktq} (prec : ℕ) → prec < pq.num_prec → Step pq (pdeq pq prec).1
  pdeq_tails : {pq : Pktq} (prec : ℕ) → prec < pq.num_prec → Step pq (pdeq_tail pq prec).1
  pdeq_matches :
      {pq : Pktq} (prec : ℕ) (fn : Option (ℕ → Bool))
      → prec < pq.num_prec
      → Step pq (pdeq_match pq prec fn).1
  pflushes :
      {pq : Pktq} (prec : ℕ) (fn : Option (ℕ → Bool))
      → prec < pq.num_prec
      → Step pq (pflush pq prec fn).1
  flushes : {pq : Pktq} (fn : Option (ℕ → Bool)) → Step pq (flush pq fn).1
  mdeqs : {pq : Pktq} (prec_bmp : ℕ) → Step pq (mdeq pq prec_bmp).1

pub data Reach (start : Pktq) : Pktq → Type 0 where
  here : Reach start start
  step : {pq pq' : Pktq} → Reach start pq → Step pq pq' → Reach start pq'

Step-IsSound : {pq pq' : Pktq} → Step pq pq' → IsSound pq → IsSound pq'
Step-IsSound (penqs prec p h) v = penq-IsSound _ prec p v h
Step-IsSound (penq_heads prec p h) v = penq_head-IsSound _ prec p v h
Step-IsSound (pdeqs prec h) v = pdeq-IsSound _ prec v h
Step-IsSound (pdeq_tails prec h) v = pdeq_tail-IsSound _ prec v h
Step-IsSound (pdeq_matches prec fn h) v = pdeq_match-IsSound _ prec fn v h
Step-IsSound (pflushes prec fn h) v = pflush-IsSound _ prec fn v h
Step-IsSound (flushes fn) v = flush-IsSound _ fn v
Step-IsSound (mdeqs prec_bmp) v = mdeq-IsSound _ prec_bmp v

-- From init with 1 to 16 precedences, after any operations on precedences in use, `len` counts the
-- packets of all precedences without wrapping, it is within the limit, and no precedence above
-- `hi_prec` has a packet.
pub Reach-IsSound :
    (num_prec max_len : ℕ) (pq : Pktq)
    → 0 < num_prec
    → num_prec ≤ 16
    → Reach (init num_prec max_len) pq
    → IsSound pq
Reach-IsSound num_prec max_len pq h h' here = init-IsSound num_prec max_len h h'
Reach-IsSound num_prec max_len pq h h' (step r s) =
    Step-IsSound s (Reach-IsSound num_prec max_len _ h h' r)
