-- ===== src/Pktq/Flush.antt =====
-- brcmutil/utils.c: flush, by the packets that the function accepts.
use native.Mathlib.Decide.{ℕ_discrete}
use omdrop_awdl.Prelude.{
  ℕ, zero, suc, ◌+◌, ◌≤◌, ◌<◌, ◌≡◌, ◌≢◌, refl, Bool, Option, List, [], ◌∷◌, ◌++◌, ap₂, sub16,
  if◌then◌else◌, arith, ap, ◌∙◌, Bool-cases, inl, inr,
}
use omdrop_awdl.Pktq.{PktqPrec, Pktq, accepts, flush_walk, pflush, flush_from, flush}

-- The packets that the function does not accept.
unfoldable pub refused : Option (ℕ → Bool) → List ℕ → List ℕ
refused fn [] = []
refused fn (p ∷ ps) = let rest : List ℕ = refused fn ps in if accepts fn p then rest else p ∷ rest

flush_walk-refused :
    (fn : Option (ℕ → Bool)) (ps : List ℕ) (len : ℕ) → (flush_walk fn ps len).0 ≡ refused fn ps
unfolding flush_walk refused
flush_walk-refused fn [] len = refl
flush_walk-refused fn (p ∷ ps) len = elim (Bool-cases (accepts fn p)) [
  | inl e ↦ rw e (flush_walk-refused fn ps (sub16 len 1))
  | inr e ↦ rw e (ap (λ s. p ∷ s) (flush_walk-refused fn ps len))
]

pflush_here :
    (pq : Pktq) (prec : ℕ) (fn : Option (ℕ → Bool))
    → ((pflush pq prec fn).1.q prec).skblist ≡ refused fn (pq.q prec).skblist
unfolding pflush
pflush_here pq prec fn = let kept = flush_walk-refused fn (pq.q prec).skblist pq.len in ground arith

pflush_other :
    (pq : Pktq) (prec prec' : ℕ) (fn : Option (ℕ → Bool))
    → prec ≢ prec'
    → (pflush pq prec fn).1.q prec' ≡ pq.q prec'
unfolding pflush
pflush_other pq prec prec' fn n = ground arith

flush_from_below :
    (fn : Option (ℕ → Bool)) (pq : Pktq) (prec left prec' : ℕ)
    → prec' < prec
    → (flush_from fn pq prec left).1.q prec' ≡ pq.q prec'
unfolding flush_from
flush_from_below fn pq prec zero prec' h = refl
flush_from_below fn pq prec (suc left) prec' h =
    flush_from_below fn (pflush pq prec fn).1 (prec + 1) left prec' (omega arith)
    ∙ pflush_other pq prec prec' fn (omega arith)

flush_from_lem :
    (fn : Option (ℕ → Bool)) (pq : Pktq) (prec left prec' : ℕ)
    → prec ≤ prec'
    → prec' < prec + left
    → ((flush_from fn pq prec left).1.q prec').skblist ≡ refused fn (pq.q prec').skblist
unfolding flush_from
flush_from_lem fn pq prec zero prec' h h' = absurd (omega arith)
flush_from_lem fn pq prec (suc left) prec' h h' = elim (ℕ_discrete prec prec') [
  | yes e ↦
      ap (λ (s : PktqPrec). s.skblist)
        (flush_from_below fn (pflush pq prec fn).1 (prec + 1) left prec' (omega arith))
      ∙ rw e (pflush_here pq prec' fn)
  | no n ↦
      flush_from_lem fn (pflush pq prec fn).1 (prec + 1) left prec' (omega arith) (omega arith)
      ∙ ap (λ (s : PktqPrec). refused fn s.skblist) (pflush_other pq prec prec' fn n)
]

-- The packets that the function accepts.
unfoldable pub accepted : Option (ℕ → Bool) → List ℕ → List ℕ
accepted fn [] = []
accepted fn (p ∷ ps) = let rest : List ℕ = accepted fn ps in if accepts fn p then p ∷ rest else rest

-- Those of the precedences from `prec` on, `left` of them.
unfoldable pub accepted_from : Option (ℕ → Bool) → (ℕ → PktqPrec) → ℕ → ℕ → List ℕ
accepted_from fn q prec zero = []
accepted_from fn q prec (suc left) =
    accepted fn (q prec).skblist ++ accepted_from fn q (prec + 1) left

flush_walk-accepted :
    (fn : Option (ℕ → Bool)) (ps : List ℕ) (len : ℕ) → (flush_walk fn ps len).1 ≡ accepted fn ps
unfolding flush_walk accepted
flush_walk-accepted fn [] len = refl
flush_walk-accepted fn (p ∷ ps) len = elim (Bool-cases (accepts fn p)) [
  | inl e ↦ rw e (ap (λ s. p ∷ s) (flush_walk-accepted fn ps (sub16 len 1)))
  | inr e ↦ rw e (flush_walk-accepted fn ps len)
]

accepted_from_same :
    (fn : Option (ℕ → Bool)) (q q' : ℕ → PktqPrec) (prec left : ℕ)
    → ((i : ℕ) → prec ≤ i → q i ≡ q' i)
    → accepted_from fn q prec left ≡ accepted_from fn q' prec left
unfolding accepted_from
accepted_from_same fn q q' prec zero same = refl
accepted_from_same fn q q' prec (suc left) same =
    rw
      (
        same prec (omega arith),
        accepted_from_same fn q q' (prec + 1) left (λ i h. same i (omega arith)),
      )
      refl

flush_from-accepted :
    (fn : Option (ℕ → Bool)) (pq : Pktq) (prec left : ℕ)
    → (flush_from fn pq prec left).0 ≡ accepted_from fn pq.q prec left
unfolding flush_from accepted_from pflush
flush_from-accepted fn pq prec zero = refl
flush_from-accepted fn pq prec (suc left) =
    let pq1 : Pktq = (pflush pq prec fn).1 in
    ap₂ (λ (a b : List ℕ). a ++ b) (flush_walk-accepted fn (pq.q prec).skblist pq.len)
      (flush_from-accepted fn pq1 (prec + 1) left
        ∙ accepted_from_same fn pq1.q pq.q (prec + 1) left
            (λ i h. pflush_other pq prec i fn (omega arith)))

-- flush leaves in each precedence in use the packets that the function does not accept, in their
-- order. It frees the packets that the function accepts, precedence by precedence and in their
-- order, and no other.
pub flush_lem :
    (pq : Pktq) (fn : Option (ℕ → Bool)) (prec : ℕ)
    → prec < pq.num_prec
    → (((flush pq fn).1.q prec).skblist ≡ refused fn (pq.q prec).skblist)
      × ((flush pq fn).0 ≡ accepted_from fn pq.q 0 pq.num_prec)
unfolding flush
flush_lem pq fn prec h = (
  flush_from_lem fn pq 0 pq.num_prec prec (omega arith) (omega arith),
  flush_from-accepted fn pq 0 pq.num_prec,
)
