-- ===== src/Pktq/Taken.antt =====
-- brcmutil/utils.c: the ways to take a packet out of the queue.
use omdrop_awdl.Prelude.{
  ℕ, ◌+◌, ◌<◌, ◌≡◌, refl, Bool, Option, none, some, List, [], ◌∷◌, length, if_keeps, arith,
  Option-cases, inl, inr,
}
use omdrop_awdl.Pktq.{
  Pktq, take_out, first_of, last_of, last_of_cons, match_of, put_back, accepts, pdeq, pdeq_tail,
  pdeq_match,
}
use omdrop_awdl.Pktq.Total.{IsSound}
use omdrop_awdl.Pktq.Keeps.{shrunk-IsSound}

-- What is taken out is one packet of the list.
pub data IsTaken (ps : List ℕ) : Option (ℕ × List ℕ) → Type 0 where
  nothing : IsTaken ps none
  one : (p : ℕ) (rest : List ℕ) → length ps ≡ length rest + 1 → IsTaken ps (some (p, rest))

pub first_of-IsTaken : (ps : List ℕ) → IsTaken ps (first_of ps)
unfolding first_of
first_of-IsTaken [] = nothing
first_of-IsTaken (p ∷ ps) = one p ps (omega arith)

put_back-IsTaken :
    (p : ℕ) (ps : List ℕ) (o : Option (ℕ × List ℕ)) → IsTaken ps o → IsTaken (p ∷ ps) (put_back p o)
put_back-IsTaken p ps none nothing = nothing
put_back-IsTaken p ps (some (x, rest)) (one _ _ e) = one x (p ∷ rest) (omega arith)

match_of-IsTaken : (fn : Option (ℕ → Bool)) (ps : List ℕ) → IsTaken ps (match_of fn ps)
unfolding match_of
match_of-IsTaken fn [] = nothing
match_of-IsTaken fn (p ∷ ps) =
    if_keeps (IsTaken (p ∷ ps)) (accepts fn p) (one p ps (omega arith))
      (put_back-IsTaken p ps (match_of fn ps) (match_of-IsTaken fn ps))

last_of_cons-IsTaken :
    (p : ℕ) (ps : List ℕ) (o : Option (ℕ × List ℕ))
    → (o ≡ none → ps ≡ [])
    → IsTaken ps o
    → IsTaken (p ∷ ps) (last_of_cons p o)
last_of_cons-IsTaken p ps none e nothing = one p [] (ground (arith, e refl))
last_of_cons-IsTaken p ps (some (x, rest)) e (one _ _ l) = one x (p ∷ rest) (omega arith)

last_of-none : (ps : List ℕ) → last_of ps ≡ none → ps ≡ []
unfolding last_of
last_of-none [] e = refl
last_of-none (p ∷ ps) e = elim (Option-cases (last_of ps)) [
  | inl gone ↦ absurd (ground arith)
  | inr ((x, rest), there) ↦ absurd (ground arith)
]

last_of-IsTaken : (ps : List ℕ) → IsTaken ps (last_of ps)
unfolding last_of
last_of-IsTaken [] = nothing
last_of-IsTaken (p ∷ ps) =
    last_of_cons-IsTaken p ps (last_of ps) (last_of-none ps) (last_of-IsTaken ps)

pub take_out-IsSound :
    (pq : Pktq) (prec : ℕ) (o : Option (ℕ × List ℕ))
    → IsSound pq
    → prec < pq.num_prec
    → IsTaken (pq.q prec).skblist o
    → IsSound (take_out pq prec o).1
unfolding take_out
take_out-IsSound pq prec none v h nothing = v
take_out-IsSound pq prec (some (p, rest)) v h (one _ _ e) = shrunk-IsSound pq prec rest v h e

pub pdeq-IsSound :
    (pq : Pktq) (prec : ℕ) → IsSound pq → prec < pq.num_prec → IsSound (pdeq pq prec).1
unfolding pdeq
pdeq-IsSound pq prec v h = take_out-IsSound pq prec _ v h (first_of-IsTaken (pq.q prec).skblist)

pub pdeq_tail-IsSound :
    (pq : Pktq) (prec : ℕ) → IsSound pq → prec < pq.num_prec → IsSound (pdeq_tail pq prec).1
unfolding pdeq_tail
pdeq_tail-IsSound pq prec v h = take_out-IsSound pq prec _ v h (last_of-IsTaken (pq.q prec).skblist)

pub pdeq_match-IsSound :
    (pq : Pktq) (prec : ℕ) (fn : Option (ℕ → Bool))
    → IsSound pq
    → prec < pq.num_prec
    → IsSound (pdeq_match pq prec fn).1
unfolding pdeq_match
pdeq_match-IsSound pq prec fn v h =
    take_out-IsSound pq prec _ v h (match_of-IsTaken fn (pq.q prec).skblist)
