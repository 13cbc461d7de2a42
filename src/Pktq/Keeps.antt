-- ===== src/Pktq/Keeps.antt =====
-- brcmutil/utils.c: the operations of the packet queue and its invariant.
use native.Mathlib.Decide.{ℕ_discrete}
use omdrop_awdl.Prelude.{
  ℕ, ◌+◌, ◌<◌, ◌≡◌, ◌||◌, List, [], ◌∷◌, length, length-append, arith, ap, Bool-cases, inl, inr,
}
use omdrop_awdl.Pktq.{Pktq, full, pfull, grown, shrunk, penq, penq_head}
use omdrop_awdl.Pktq.Total.{IsSound, total-with_list, total-member}

pub grown-IsSound :
    (pq : Pktq) (prec : ℕ) (skblist : List ℕ)
    → IsSound pq
    → prec < pq.num_prec
    → pq.len < pq.max
    → length skblist ≡ length (pq.q prec).skblist + 1
    → IsSound (grown pq prec skblist)
grown-IsSound pq prec skblist v h room longer =
    let sum = total-with_list pq.q prec pq.num_prec skblist h in
    record {
      precs = v.precs;
      hi_in = ground (arith, v.precs, v.hi_in);
      counted = omega (arith, sum, v.counted, v.bounded, v.fits, longer);
      bounded = omega (arith, v.fits);
      fits = v.fits;
      above = λ prec' b b'. elim (ℕ_discrete prec prec') [
        | yes e ↦ absurd (ground arith)
        | no n ↦ ground (arith, v.above prec' b)
      ];
    }

pub shrunk-IsSound :
    (pq : Pktq) (prec : ℕ) (rest : List ℕ)
    → IsSound pq
    → prec < pq.num_prec
    → length (pq.q prec).skblist ≡ length rest + 1
    → IsSound (shrunk pq prec rest)
shrunk-IsSound pq prec rest v h shorter =
    let sum = total-with_list pq.q prec pq.num_prec rest h in
    let has = total-member pq.q prec pq.num_prec h in
    record {
      precs = v.precs;
      hi_in = v.hi_in;
      counted = omega (arith, v.counted, v.bounded, v.fits);
      bounded = omega (arith, v.counted, v.bounded, v.fits);
      fits = v.fits;
      above = λ prec' b b'. elim (ℕ_discrete prec prec') [
        | yes e ↦ let none_there = ap length (v.above prec h (omega arith)) in absurd (omega arith)
        | no n ↦ ground (arith, v.above prec' b b')
      ];
    }

pub penq-IsSound :
    (pq : Pktq) (prec p : ℕ) → IsSound pq → prec < pq.num_prec → IsSound (penq pq prec p).1
unfolding penq
penq-IsSound pq prec p v h = elim (Bool-cases (full pq || pfull pq prec)) [
  | inl e ↦ rw e v
  | inr e ↦
      rw e (grown-IsSound pq prec _ v h (ground arith) (length-append (pq.q prec).skblist (p ∷ [])))
]

pub penq_head-IsSound :
    (pq : Pktq) (prec p : ℕ) → IsSound pq → prec < pq.num_prec → IsSound (penq_head pq prec p).1
unfolding penq_head
penq_head-IsSound pq prec p v h = elim (Bool-cases (full pq || pfull pq prec)) [
  | inl e ↦ rw e v
  | inr e ↦ rw e (grown-IsSound pq prec _ v h (ground arith) (omega arith))
]
