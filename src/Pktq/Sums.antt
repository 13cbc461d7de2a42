-- ===== src/Pktq/Sums.antt =====
-- brcmutil/utils.c: mlen and peek_tail, which stop at hi_prec.
use native.Mathlib.Decide.{ℕ_discrete}
use omdrop_awdl.Prelude.{
  ℕ, zero, suc, ◌+◌, ◌≤◌, ◌<◌, ◌≡◌, refl, Bool, true, false, none, some, List, [], ◌∷◌, ◌++◌, ◌==◌,
  ltb, length, arith, ap, sym, ◌∙◌, Bool-cases, inl, inr, ◌⊎◌,
}
use omdrop_awdl.Pktq.{PktqPrec, Pktq, last_of, last_of_cons, is_empty, empty}
use omdrop_awdl.Pktq.Total.{total, IsSound}
use omdrop_awdl.Pktq.{first_used, peek_tail, tail_of}
use omdrop_awdl.Pktq.Hint.{nil, cons-cases}

first_used_lem :
    (q : ℕ → PktqPrec) (prec left : ℕ)
    → (first_used q prec left ≤ prec + left)
      × ((lower : ℕ) → prec ≤ lower → lower < first_used q prec left → (q lower).skblist ≡ [])
      × (first_used q prec left < prec + left
          → is_empty (q (first_used q prec left)).skblist ≡ false)
unfolding first_used
first_used_lem q prec zero =
    (omega arith, λ lower b b'. absurd (omega arith), λ b. absurd (omega arith))
first_used_lem q prec (suc left) = elim (Bool-cases (is_empty (q prec).skblist)) [
  | inr e ↦ (rw e (omega arith), rw e (λ lower b b'. absurd (omega arith)), rw e (λ b. e))
  | inl e ↦
      let (le, below, used) = first_used_lem q (prec + 1) left in
      (
        rw e (omega arith),
        rw e (λ lower b b'. elim (ℕ_discrete lower prec) [
          | yes same ↦ rw same (nil _ e)
          | no n ↦ below lower (omega arith) b'
        ]),
        rw e (λ b. used (omega arith)),
      )
]

total-zero :
    (q : ℕ → PktqPrec) (n : ℕ) → ((prec : ℕ) → prec < n → (q prec).skblist ≡ []) → total q n ≡ 0
unfolding total
total-zero q zero all = refl
total-zero q (suc n) all =
    let none_there = ap length (all n (omega arith)) in
    let rest = total-zero q n (λ prec b. all prec (omega arith)) in omega arith

pub last_of_lem :
    (p : ℕ) (ps : List ℕ)
    → (x : ℕ) × (rest : List ℕ) × (last_of (p ∷ ps) ≡ some (x, rest)) × (p ∷ ps ≡ rest ++ (x ∷ []))
unfolding last_of
last_of_lem p [] = (p, [], refl, refl)
last_of_lem p (p' ∷ ps) =
    let (x, rest, e, e') = last_of_lem p' ps in
    (x, p ∷ rest, ap (last_of_cons p) e, ap (λ s. p ∷ s) e')

is_zero : (n : ℕ) → (n == 0) ≡ true → n ≡ 0
is_zero n h = ground arith

not_below : (prec hi : ℕ) (b : Bool) → (prec < 0 + hi → b ≡ false) → b ≡ true → hi ≤ prec
not_below prec hi b used e = elim (Bool-cases (ltb prec hi)) [
  | inl h ↦ absurd (let used' = used (ground arith) in ground arith)
  | inr h ↦ ground arith
]

all_empty :
    (pq : Pktq)
    → IsSound pq
    → (found : ℕ) → found ≤ 0 + pq.hi_prec
    → pq.hi_prec ≤ found
    → ((lower : ℕ) → 0 ≤ lower → lower < found → (pq.q lower).skblist ≡ [])
    → is_empty (pq.q found).skblist ≡ true
    → (prec : ℕ) → prec < pq.num_prec
    → (pq.q prec).skblist ≡ []
all_empty pq v found le high below e prec b = elim (ℕ_discrete prec found) [
  | yes same ↦ rw same (nil _ e)
  | no n ↦ elim (Bool-cases (ltb prec found)) [
    | inl h ↦ below prec (omega arith) (ground arith)
    | inr h ↦ v.above prec b (ground arith)
  ]
]

-- peek_tail on a sound queue returns the last packet of the lowest precedence that has one, with
-- that precedence, and NULL only if the queue has no packet.
pub peek_tail_lem :
    (pq : Pktq)
    → IsSound pq
    → ((peek_tail pq ≡ none) × (total pq.q pq.num_prec ≡ 0))
      ⊎ ((prec p : ℕ) × (rest : List ℕ) × (peek_tail pq ≡ some (prec, p))
          × ((pq.q prec).skblist ≡ rest ++ (p ∷ []))
          × ((lower : ℕ) → lower < prec → (pq.q lower).skblist ≡ []))
unfolding peek_tail
peek_tail_lem pq v = elim (Bool-cases (empty pq)) [
  | inl e ↦ inl (rw e refl, sym v.counted ∙ is_zero pq.len e)
  | inr e ↦
      let prec : ℕ = first_used pq.q 0 pq.hi_prec in
      let (le, below, used) = first_used_lem pq.q 0 pq.hi_prec in
      elim (Bool-cases (is_empty (pq.q prec).skblist)) [
        | inr full_there ↦
            let (p, ps, there) = cons-cases (pq.q prec).skblist full_there in
            let (x, rest, found, split) = last_of_lem p ps in
            inr (
              prec,
              x,
              rest,
              rw e (ap (tail_of prec) (ap last_of there ∙ found)),
              there ∙ split,
              λ lower b. below lower (omega arith) b,
            )
        | inl none_there ↦
            let high : pq.hi_prec ≤ prec = not_below prec pq.hi_prec _ used none_there in
            let nobody =
              total-zero pq.q pq.num_prec (all_empty pq v prec le high below none_there) in
            absurd (ground (arith, v.counted))
      ]
]
