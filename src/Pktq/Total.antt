-- ===== src/Pktq/Total.antt =====
-- brcmutil/utils.c: the sum over the precedences of the packet queue, and its invariant.
use native.Mathlib.Decide.{ℕ_discrete}
use omdrop_awdl.Prelude.{
  ℕ, zero, suc, ◌+◌, ◌^◌, ◌≤◌, ◌<◌, ◌≡◌, refl, List, [], length, u16, arith, sym,
}
use omdrop_awdl.Pktq.{PktqPrec, Pktq, with_list, init}

-- The packets in the precedences below `n`.
unfoldable pub total : (ℕ → PktqPrec) → ℕ → ℕ
total q zero = 0
total q (suc n) = total q n + length (q n).skblist

-- `len` counts the packets, and no precedence above hi_prec has any.
pub record IsSound (pq : Pktq) : Type 0 where
  pub precs : pq.num_prec ≤ 16
  pub hi_in : pq.hi_prec < pq.num_prec
  pub counted : pq.len ≡ total pq.q pq.num_prec
  pub bounded : pq.len ≤ pq.max
  pub fits : pq.max < 2 ^ 16
  pub above : (prec : ℕ) → prec < pq.num_prec → pq.hi_prec < prec → (pq.q prec).skblist ≡ []

pub total-outside :
    (q : ℕ → PktqPrec) (prec n : ℕ) (skblist : List ℕ)
    → n ≤ prec
    → total (with_list q prec skblist) n ≡ total q n
unfolding total
total-outside q prec zero skblist h = refl
total-outside q prec (suc n) skblist h =
    let rest = total-outside q prec n skblist (omega arith) in ground arith

-- A write changes the sum by the difference of the lengths.
pub total-with_list :
    (q : ℕ → PktqPrec) (prec n : ℕ) (skblist : List ℕ)
    → prec < n
    → total (with_list q prec skblist) n + length (q prec).skblist ≡ total q n + length skblist
unfolding total
total-with_list q prec zero skblist h = elim h [ ]
total-with_list q prec (suc n) skblist h = elim (ℕ_discrete prec n) [
  | yes e ↦ let rest = total-outside q prec n skblist (omega arith) in ground arith
  | no ne ↦ let rest = total-with_list q prec n skblist (omega arith) in ground arith
]

pub total-member : (q : ℕ → PktqPrec) (prec n : ℕ) → prec < n → length (q prec).skblist ≤ total q n
unfolding total
total-member q prec zero h = elim h [ ]
total-member q prec (suc n) h = elim (ℕ_discrete prec n) [
  | yes e ↦ rw e (omega arith)
  | no ne ↦ let rest = total-member q prec n (omega arith) in omega arith
]

total-empty : (n : ℕ) (m : ℕ) → total (λ prec. record { skblist = []; max = m }) n ≡ 0
unfolding total
total-empty zero m = refl
total-empty (suc n) m = let rest = total-empty n m in omega arith

pub init-IsSound :
    (num_prec max_len : ℕ) → 0 < num_prec → num_prec ≤ 16 → IsSound (init num_prec max_len)
unfolding init
init-IsSound num_prec max_len h h' = record {
  precs = omega arith;
  hi_in = omega arith;
  counted = sym (total-empty (u16 num_prec) (u16 max_len));
  bounded = omega arith;
  fits = omega arith;
  above = λ prec b b'. refl;
}
