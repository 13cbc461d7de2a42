-- ===== src/Fwsignal/Credits/Balance.antt =====
-- fwsignal.c: the sequences in which credits are spent, borrowed and returned.
use omdrop_awdl.Prelude.{
  ℕ, zero, suc, ◌+◌, ◌-◌, ◌/◌, ◌≤◌, ◌<◌, ◌≡◌, ◌⊎◌, refl, Bool, true, false, ◌&&◌, ltb, leb, update,
  arith, Bool-cases, inl, inr, if◌then◌else◌,
}
use omdrop_awdl.Fwsignal.Credits.{
  Credits, return_credits, lend, borrow_from, borrow_credit, borrow_ratio, fifo_count,
}
use omdrop_awdl.Fwsignal.Credits.Repay.{owed, wealth}

-- Whether a fifo is an access category that may borrow.
abbrev pub borrows : ℕ → Bool
borrows fifo = ltb 0 fifo && leb fifo 3

-- What a fifo has borrowed.
abbrev pub debt : Credits → ℕ → ℕ
debt s fifo = if borrows fifo then owed s fifo 4 else 0

-- The credits, and the packets that the firmware has of each fifo.
pub record Ledger : Type 0 where
  pub credits : Credits
  pub sent : ℕ → ℕ

-- A packet takes a credit of its fifo.
abbrev pub spend : Credits → ℕ → Credits
spend s fifo = record s { fifo_credit = update s.fifo_credit fifo (s.fifo_credit fifo - 1) }

-- A packet that takes one of the own credits, one that takes a borrowed credit if there is one, and
-- credits that come back: no more than the firmware has packets.
pub data Step (l : Ledger) : Ledger → Type 0 where
  spends :
      (fifo : ℕ)
      → fifo < fifo_count
      → 0 < l.credits.fifo_credit fifo
      → Step l
          (record { credits = spend l.credits fifo; sent = update l.sent fifo (l.sent fifo + 1) })
  borrows_one :
      (fifo : ℕ) (borrow_all : Bool)
      → borrows fifo ≡ true
      → Step l (record {
        credits = (borrow_credit l.credits (fifo - 1) fifo borrow_all).1;
        sent = update l.sent fifo (
            l.sent fifo
            + (if (borrow_credit l.credits (fifo - 1) fifo borrow_all).0 then 1 else 0));
      })
  returns :
      (fifo credits : ℕ)
      → fifo < fifo_count
      → credits ≤ l.sent fifo
      → Step l (record {
        credits = return_credits l.credits fifo credits;
        sent = update l.sent fifo (l.sent fifo - credits);
      })

pub data Reach (start : Ledger) : Ledger → Type 0 where
  here : Reach start start
  next : {l l' : Ledger} → Reach start l → Step l l' → Reach start l'

-- The credits of a fifo, at home or lent, with its packets, are those it began with and those it
-- has borrowed; and it has borrowed for packets only.
pub record IsBalanced (l : Ledger) : Type 0 where
  pub balance :
      (i : ℕ)
      → i < fifo_count
      → wealth l.credits i + l.sent i ≡ l.credits.init_fifo_credit i + debt l.credits i
  pub covered : (i : ℕ) → debt l.credits i ≤ l.sent i

pub spends-IsBalanced :
    (l : Ledger) (fifo : ℕ)
    → 0 < l.credits.fifo_credit fifo
    → IsBalanced l
    → IsBalanced
        (record { credits = spend l.credits fifo; sent = update l.sent fifo (l.sent fifo + 1) })
spends-IsBalanced l fifo some_left v = record {
  balance = λ i b. ground (arith, v.balance i b);
  covered = λ i. ground (arith, v.covered i);
}

pub borrow_from-cases :
    (count : ℕ) (s : Credits) (lender_ac borrower_ac : ℕ) (borrow_all : Bool)
    → ((l : ℕ) × (l < lender_ac + count)
        × (0 < s.fifo_credit l)
        × (borrow_from count s lender_ac borrower_ac borrow_all ≡ (true, lend s borrower_ac l)))
      ⊎ (borrow_from count s lender_ac borrower_ac borrow_all
          ≡ (false, record s { fifo_credit_map = update s.fifo_credit_map borrower_ac false }))
unfolding borrow_from
borrow_from-cases zero s lender_ac borrower_ac borrow_all = inr refl
borrow_from-cases (suc count) s lender_ac borrower_ac borrow_all =
    elim (Bool-cases (
      ltb (if borrow_all then 0 else s.init_fifo_credit lender_ac / borrow_ratio)
        (s.fifo_credit lender_ac))) [
          | inl e ↦ inl (lender_ac, omega arith, ground arith, rw e refl)
          | inr e ↦ elim (borrow_from-cases count s (lender_ac + 1) borrower_ac borrow_all) [
            | inl (l, l_in, some_left, same) ↦ inl (l, omega arith, some_left, rw e same)
            | inr same ↦ inr (rw e same)
          ]
        ]

lend-IsBalanced :
    (l : Ledger) (fifo lender_ac : ℕ)
    → borrows fifo ≡ true
    → lender_ac ≤ 3
    → 0 < l.credits.fifo_credit lender_ac
    → IsBalanced l
    → IsBalanced (record {
      credits = lend l.credits fifo lender_ac;
      sent = update l.sent fifo (l.sent fifo + 1);
    })
unfolding lend
lend-IsBalanced l fifo lender_ac is_ac lender_in some_left v = record {
  balance = λ i b. ground (arith, v.balance i b);
  covered = λ i. ground (arith, v.covered i);
}

pub borrows-IsBalanced :
    (l : Ledger) (fifo : ℕ) (borrow_all : Bool)
    → borrows fifo ≡ true
    → IsBalanced l
    → IsBalanced (record {
      credits = (borrow_credit l.credits (fifo - 1) fifo borrow_all).1;
      sent =
          update l.sent fifo (
            l.sent fifo
            + (if (borrow_credit l.credits (fifo - 1) fifo borrow_all).0 then 1 else 0));
    })
unfolding borrow_credit
borrows-IsBalanced l fifo borrow_all is_ac v =
    elim (borrow_from-cases (fifo - 1 + 1) l.credits 0 fifo borrow_all) [
      | inl (lender_ac, lender_in, some_left, e) ↦
          rw e (lend-IsBalanced l fifo lender_ac is_ac (ground arith) some_left v)
      | inr e ↦ rw e (record {
        balance = λ i b. ground (arith, v.balance i b);
        covered = λ i. ground (arith, v.covered i);
      })
    ]
