-- ===== src/Pktq/Order.antt =====
-- brcmutil/utils.c: mdeq.
use omdrop_awdl.Prelude.{
  ℕ, suc, ◌+◌, ◌≤◌, ◌<◌, ◌≡◌, refl, true, Option, none, some, List, [], ◌∷◌, ◌==◌, leb, length,
  arith, ap, sym, ◌∙◌, Bool-cases, inl, inr, leb→le,
}
use omdrop_awdl.Pktq.{
  PktqPrec, Pktq, with_list, take_out, first_of, lower_hi, mdeq_at, mdeq, empty, with_prec,
}
use omdrop_awdl.Pktq.Total.{total, IsSound, total-member}
use omdrop_awdl.Pktq.{in_bmp}
use omdrop_awdl.Pktq.Taken.{first_of-IsTaken, take_out-IsSound}
use omdrop_awdl.Pktq.Hint.{
  nil, is_empty_lem, cons-cases, lowered-IsSound, IsHighest, nowhere, at, highest_used-IsHighest,
}

-- What mdeq returns.
pub data IsMdeq (pq : Pktq) (prec_bmp : ℕ) : Option (ℕ × ℕ) × Pktq → Type 0 where
  nothing :
      (pq' : Pktq)
      → ((prec : ℕ) → prec < pq.num_prec → in_bmp prec_bmp prec ≡ true → (pq.q prec).skblist ≡ [])
      → pq'.q ≡ pq.q
      → IsMdeq pq prec_bmp (none, pq')
  packet :
      (prec p : ℕ) (rest : List ℕ) (pq' : Pktq)
      → prec < pq.num_prec
      → in_bmp prec_bmp prec ≡ true
      → (pq.q prec).skblist ≡ p ∷ rest
      → ((higher : ℕ)
          → prec < higher
          → higher < pq.num_prec
          → in_bmp prec_bmp higher ≡ true
          → (pq.q higher).skblist ≡ [])
      → pq'.q ≡ with_list pq.q prec rest
      → pq'.len + 1 ≡ pq.len
      → IsMdeq pq prec_bmp (some (prec, p), pq')

total-nil :
    (q : ℕ → PktqPrec) (n : ℕ) → total q n ≡ 0 → (prec : ℕ) → prec < n → (q prec).skblist ≡ []
total-nil q n e prec h = let le = total-member q prec n h in nil _ (is_empty_lem _ (omega arith))

is_zero : (n : ℕ) → (n == 0) ≡ true → n ≡ 0
is_zero n h = ground arith

-- Above hi_prec there is nothing to find.
within :
    (pq : Pktq) (prec_bmp : ℕ)
    → IsSound pq
    → ((prec : ℕ) → prec ≤ pq.hi_prec → in_bmp prec_bmp prec ≡ true → (pq.q prec).skblist ≡ [])
    → (prec : ℕ) → prec < pq.num_prec
    → in_bmp prec_bmp prec ≡ true
    → (pq.q prec).skblist ≡ []
within pq prec_bmp v all prec b m = elim (Bool-cases (leb prec pq.hi_prec)) [
  | inl h ↦ all prec (leb→le _ _ h) m
  | inr h ↦ v.above prec b (ground arith)
]

-- The hint does not show in what mdeq returns.
lowered-IsMdeq :
    (pq : Pktq) (prec_bmp hi_prec : ℕ) (r : Option (ℕ × ℕ) × Pktq)
    → IsMdeq (record pq { hi_prec = hi_prec }) prec_bmp r
    → IsMdeq pq prec_bmp r
lowered-IsMdeq pq prec_bmp hi_prec (none, pq') (nothing _ all same) = nothing pq' all same
lowered-IsMdeq pq prec_bmp hi_prec (some (prec, p), pq') (packet _ _ rest _ b m e above q len) =
    packet prec p rest pq' b m e above q len

with_prec_keeps : (prec : ℕ) (r : Option ℕ × Pktq) → IsSound r.1 → IsSound (with_prec prec r).1
with_prec_keeps prec (none, pq) v = v
with_prec_keeps prec (some p, pq) v = v

mdeq_at-IsSound :
    (pq : Pktq) (prec_bmp : ℕ) (o : Option ℕ)
    → IsSound pq
    → IsHighest pq.q prec_bmp pq.hi_prec o
    → IsSound (mdeq_at pq o).1
unfolding mdeq_at
mdeq_at-IsSound pq prec_bmp none v (nowhere all) = v
mdeq_at-IsSound pq prec_bmp (some prec) v (at _ le member used above) =
    with_prec_keeps prec _
      (take_out-IsSound pq prec _ v (omega (arith, v.hi_in)) (first_of-IsTaken (pq.q prec).skblist))

mdeq_at-IsMdeq :
    (pq : Pktq) (prec_bmp : ℕ) (o : Option ℕ)
    → IsSound pq
    → IsHighest pq.q prec_bmp pq.hi_prec o
    → IsMdeq pq prec_bmp (mdeq_at pq o)
unfolding mdeq_at take_out first_of
mdeq_at-IsMdeq pq prec_bmp none v (nowhere all) = nothing pq (within pq prec_bmp v all) refl
mdeq_at-IsMdeq pq prec_bmp (some prec) v (at _ le member used above) =
    let (p, rest, e) = cons-cases (pq.q prec).skblist used in
    let has = total-member pq.q prec pq.num_prec (omega (arith, v.hi_in)) in
    let long : length (pq.q prec).skblist ≡ suc (length rest) = ap length e in
    rw (ap first_of e) (
      packet prec p rest _ (omega (arith, v.hi_in)) member e
        (λ higher b b' m. elim (Bool-cases (leb higher pq.hi_prec)) [
          | inl h ↦ above higher b (leb→le _ _ h) m
          | inr h ↦ v.above higher b' (ground arith)
        ])
        refl (omega (arith, v.counted, v.bounded, v.fits)))

-- mdeq on a sound queue takes the first packet of the highest precedence of the set that has one,
-- and counts it off; it returns NULL, and leaves the queues, only if no precedence of the set has a
-- packet.
pub mdeq-IsMdeq : (pq : Pktq) (prec_bmp : ℕ) → IsSound pq → IsMdeq pq prec_bmp (mdeq pq prec_bmp)
unfolding mdeq
mdeq-IsMdeq pq prec_bmp v = elim (Bool-cases (empty pq)) [
  | inl e ↦
      let nobody : total pq.q pq.num_prec ≡ 0 = sym v.counted ∙ is_zero pq.len e in
      rw e (nothing pq (λ prec b m. total-nil pq.q pq.num_prec nobody prec b) refl)
  | inr e ↦
      let low : Pktq = record pq { hi_prec = lower_hi pq.q pq.hi_prec } in
      rw e (
        lowered-IsMdeq pq prec_bmp low.hi_prec _ (
          mdeq_at-IsMdeq low prec_bmp _ (lowered-IsSound pq v)
            (highest_used-IsHighest pq.q prec_bmp low.hi_prec)))
]

pub mdeq-IsSound : (pq : Pktq) (prec_bmp : ℕ) → IsSound pq → IsSound (mdeq pq prec_bmp).1
unfolding mdeq
mdeq-IsSound pq prec_bmp v = elim (Bool-cases (empty pq)) [
  | inl e ↦ rw e v
  | inr e ↦
      let low : Pktq = record pq { hi_prec = lower_hi pq.q pq.hi_prec } in
      rw e (
        mdeq_at-IsSound low prec_bmp _ (lowered-IsSound pq v)
          (highest_used-IsHighest pq.q prec_bmp low.hi_prec))
]
