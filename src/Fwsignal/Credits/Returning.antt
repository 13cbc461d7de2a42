-- ===== src/Fwsignal/Credits/Returning.antt =====
-- fwsignal.c: brcmf_fws_return_credits, and every sequence of steps on the credits.
use native.Mathlib.Decide.{ℕ_discrete}
use omdrop_awdl.Prelude.{
  update_self, ℕ, ◌+◌, ◌-◌, ◌≤◌, ◌<◌, ◌≡◌, ◌≢◌, refl, ◌∙◌, ap, Bool, true, false, ◌==◌, ltb, update,
  arith, Bool-cases, inl, inr, if◌then◌else◌,
}
use omdrop_awdl.Fwsignal.Credits.{
  Credits, repay, take_own, return_credits, lend, borrow_credit, fifo_count,
}
use omdrop_awdl.Fwsignal.Credits.Repay.{wealth, Moved, Repaid, repay-Repaid, owed-cong}
use omdrop_awdl.Fwsignal.Credits.Balance.{
  borrows, debt, Ledger, Step, spends, borrows_one, returns, Reach, here, next, IsBalanced,
  borrow_from-cases, spends-IsBalanced, borrows-IsBalanced,
}

take_own_lem :
    (s : Credits) (fifo credits : ℕ)
    → s.fifo_credit fifo + credits ≤ s.init_fifo_credit fifo
    → take_own s fifo credits
      ≡ record s { fifo_credit = update s.fifo_credit fifo (s.fifo_credit fifo + credits) }
unfolding take_own
take_own_lem s fifo credits h =
    let fits : ltb (s.init_fifo_credit fifo) (s.fifo_credit fifo + credits) ≡ false =
      ground arith in
    rw fits refl

-- The credits of a fifo that has not borrowed.
own_lem :
    (l : Ledger) (fifo credits : ℕ) (marks : ℕ → Bool)
    → borrows fifo ≡ false
    → fifo < fifo_count
    → credits ≤ l.sent fifo
    → IsBalanced l
    → IsBalanced (record {
      credits = take_own (record (l.credits) { fifo_credit_map = marks }) fifo credits;
      sent = update l.sent fifo (l.sent fifo - credits);
    })
own_lem l fifo credits marks apart fifo_in le v =
    let at = v.balance fifo fifo_in in
    rw
      (take_own_lem (record (l.credits) { fifo_credit_map = marks }) fifo credits
        (ground (arith, at)))
      (record {
        balance = λ i b. ground (arith, v.balance i b);
        covered = λ i. ground (arith, v.covered i);
      })

debt-other : (s s' : Credits) (fifo i : ℕ) → Moved s s' fifo → fifo ≢ i → debt s' i ≡ debt s i
debt-other s s' fifo i m ne =
    ap (λ n. if borrows i then n else 0) (owed-cong s s' i 4 (λ j b. m.same_others i j ne))

-- The lenders are paid, and what is left goes to the fifo.
module _ (l : Ledger) (s : Credits) (fifo credits : ℕ) (is_ac : borrows fifo ≡ true)
    (le : credits ≤ l.sent fifo) (v : IsBalanced l) where
  paid_lem :
      Repaid l.credits fifo credits 4 (0, s)
      → IsBalanced (record { credits = s; sent = update l.sent fifo (l.sent fifo - credits) })
  paid_lem r = record {
    balance = λ i b. elim (ℕ_discrete fifo i) [
      | yes e ↦
          let its : debt s fifo + credits ≡ debt l.credits fifo = rw is_ac (r.paid ∙ omega arith) in
          rw (← e) (
            omega (
              arith,
              its,
              v.balance fifo (rw e b),
              r.moved.same_wealth fifo,
              update_self l.sent fifo (l.sent fifo - credits),
              ap (λ f. f fifo) r.moved.same_init,
            ))
      | no ne ↦
          let same = debt-other l.credits s fifo i r.moved ne in
          ground
            (arith, same, v.balance i b, r.moved.same_wealth i, ap (λ f. f i) r.moved.same_init)
    ];
    covered = λ i. elim (ℕ_discrete fifo i) [
      | yes e ↦
          let its : debt s fifo + credits ≡ debt l.credits fifo = rw is_ac (r.paid ∙ omega arith) in
          rw (← e)
            (omega (arith, its, v.covered fifo, update_self l.sent fifo (l.sent fifo - credits)))
      | no ne ↦
          let same = debt-other l.credits s fifo i r.moved ne in ground (arith, same, v.covered i)
    ];
  }

  rest_lem :
      (left : ℕ)
      → left ≢ 0
      → Repaid l.credits fifo credits 4 (left, s)
      → IsBalanced (record {
        credits = take_own s fifo left;
        sent = update l.sent fifo (l.sent fifo - credits);
      })
  rest_lem left some_left r =
      let at = v.balance fifo (ground arith) in
      let none_owed : debt s fifo ≡ 0 = rw is_ac (r.cleared some_left) in
      let its : credits ≡ debt l.credits fifo + left =
        rw is_ac (omega (arith, r.paid, r.cleared some_left)) in
      let wealth_kept = r.moved.same_wealth fifo in
      let init_kept = ap (λ f. f fifo) r.moved.same_init in
      rw (take_own_lem s fifo left (ground (arith, at, its, wealth_kept, init_kept))) (record {
        balance = λ i b. elim (ℕ_discrete fifo i) [
          | yes e ↦ rw (← e) (ground (arith, at, its, wealth_kept, init_kept, none_owed))
          | no ne ↦
              let same = debt-other l.credits s fifo i r.moved ne in
              ground
                (arith, same, v.balance i b, r.moved.same_wealth i, ap (λ f. f i) r.moved.same_init)
        ];
        covered = λ i. elim (ℕ_discrete fifo i) [
          | yes e ↦ rw (← e) (ground (arith, none_owed))
          | no ne ↦
              let same = debt-other l.credits s fifo i r.moved ne in
              ground (arith, same, v.covered i)
        ];
      })

returns-IsBalanced :
    (l : Ledger) (fifo credits : ℕ)
    → fifo < fifo_count
    → credits ≤ l.sent fifo
    → IsBalanced l
    → IsBalanced (record {
      credits = return_credits l.credits fifo credits;
      sent = update l.sent fifo (l.sent fifo - credits);
    })
unfolding return_credits
returns-IsBalanced l fifo credits fifo_in le v =
    let marks = update l.credits.fifo_credit_map fifo true in
    let s1 : Credits = record (l.credits) { fifo_credit_map = marks } in
    let l1 : Ledger = record { credits = s1; sent = l.sent } in
    let v1 : IsBalanced l1 = record { balance = v.balance; covered = v.covered } in
    elim (Bool-cases (credits == 0)) [
      | inl e ↦
          let unchanged : l.sent fifo - credits ≡ l.sent fifo = ground arith in
          rw e (record {
            balance = λ i b. ground (arith, v.balance i b);
            covered = λ i. ground (arith, v.covered i);
          })
      | inr some_credit ↦ elim (Bool-cases (borrows fifo)) [
        | inr apart ↦ rw (some_credit, apart) (own_lem l fifo credits marks apart fifo_in le v)
        | inl is_ac ↦
            let r = repay-Repaid 4 s1 fifo credits (ground arith) (omega arith) (ground arith) in
            elim (Bool-cases ((repay 4 s1 fifo credits).0 == 0)) [
              | inl e ↦
                  let all : (repay 4 s1 fifo credits).0 ≡ 0 = ground arith in
                  rw (some_credit, is_ac)
                    (rw e (paid_lem l1 _ fifo credits is_ac le v1 (rw all at r)))
              | inr e ↦
                  rw (some_credit, is_ac)
                    (rw e (rest_lem l1 _ fifo credits is_ac le v1 _ (ground arith) r))
            ]
      ]
    ]

Step-IsBalanced : {l l' : Ledger} → Step l l' → IsBalanced l → IsBalanced l'
Step-IsBalanced (spends fifo fifo_in some_left) v = spends-IsBalanced _ fifo some_left v
Step-IsBalanced (borrows_one fifo borrow_all is_ac) v = borrows-IsBalanced _ fifo borrow_all is_ac v
Step-IsBalanced (returns fifo credits fifo_in le) v = returns-IsBalanced _ fifo credits fifo_in le v

pub Reach-IsBalanced : {l l' : Ledger} → Reach l l' → IsBalanced l → IsBalanced l'
Reach-IsBalanced here v = v
Reach-IsBalanced (next r step) v = Step-IsBalanced step (Reach-IsBalanced r v)

-- The credits that the firmware has announced, of which none is used.
abbrev pub announced : (ℕ → ℕ) → Ledger
announced init = record {
  credits = record {
    fifo_credit = init;
    init_fifo_credit = init;
    credits_borrowed = λ i l. 0;
    fifo_credit_map = λ i. ltb 0 (init i);
  };
  sent = λ i. 0;
}

announced-IsBalanced : (init : ℕ → ℕ) → IsBalanced (announced init)
announced-IsBalanced init = record { balance = λ i b. ground arith; covered = λ i. ground arith }

return_credits-init :
    (s : Credits) (fifo credits : ℕ)
    → (return_credits s fifo credits).init_fifo_credit ≡ s.init_fifo_credit
unfolding return_credits take_own
return_credits-init s fifo credits =
    let s1 : Credits = record s { fifo_credit_map = update s.fifo_credit_map fifo true } in
    elim (Bool-cases (credits == 0)) [
      | inl e ↦ rw e refl
      | inr e ↦ elim (Bool-cases (borrows fifo)) [
        | inr apart ↦ rw (e, apart) refl
        | inl is_ac ↦
            let r = repay-Repaid 4 s1 fifo credits (ground arith) (omega arith) (ground arith) in
            elim (Bool-cases ((repay 4 s1 fifo credits).0 == 0)) [
              | inl z ↦ rw (e, is_ac) (rw z r.moved.same_init)
              | inr z ↦ rw (e, is_ac) (rw z r.moved.same_init)
            ]
      ]
    ]

borrow_credit-init :
    (s : Credits) (highest borrower : ℕ) (borrow_all : Bool)
    → (borrow_credit s highest borrower borrow_all).1.init_fifo_credit ≡ s.init_fifo_credit
unfolding borrow_credit lend
borrow_credit-init s highest borrower borrow_all =
    elim (borrow_from-cases (highest + 1) s 0 borrower borrow_all) [
      | inl (l, l_in, some_left, e) ↦ rw e refl
      | inr e ↦ rw e refl
    ]

Reach-init :
    (init : ℕ → ℕ) {l : Ledger} → Reach (announced init) l → l.credits.init_fifo_credit ≡ init
Reach-init init here = refl
Reach-init init (next r (spends fifo fifo_in some_left)) = Reach-init init r
Reach-init init (next r (borrows_one fifo borrow_all is_ac)) =
    borrow_credit-init _ (fifo - 1) fifo borrow_all ∙ Reach-init init r
Reach-init init (next r (returns fifo credits fifo_in le)) =
    return_credits-init _ fifo credits ∙ Reach-init init r

-- From the credits that the firmware has announced, whatever the order in which packets take own or
-- borrowed credits and credits come back, never more for a fifo than the firmware has packets of
-- it: the credits of a fifo, those that it has lent included, are never more than were announced,
-- and a fifo has not borrowed more than the firmware has packets of it.
pub Reach-bounds :
    (init : ℕ → ℕ) (l : Ledger) (i : ℕ)
    → Reach (announced init) l
    → i < fifo_count
    → (wealth l.credits i ≤ init i) × (debt l.credits i ≤ l.sent i)
Reach-bounds init l i r i_in =
    let v = Reach-IsBalanced r (announced-IsBalanced init) in
    let same = ap (λ f. f i) (Reach-init init r) in
    (omega (arith, v.balance i i_in, v.covered i, same), v.covered i)

-- In each state so reached in which the firmware has no packet left, each fifo has exactly the
-- credits that were announced: lending has lost none.
pub Reach-restored :
    (init : ℕ → ℕ) (l : Ledger) (i : ℕ)
    → Reach (announced init) l
    → ((fifo : ℕ) → l.sent fifo ≡ 0)
    → i < fifo_count
    → l.credits.fifo_credit i ≡ init i
Reach-restored init l i r idle i_in =
    let v = Reach-IsBalanced r (announced-IsBalanced init) in
    ground (
      arith,
      v.balance i i_in,
      v.covered i,
      v.covered 1,
      v.covered 2,
      v.covered 3,
      ap (λ f. f i) (Reach-init init r),
      idle i,
      idle 1,
      idle 2,
      idle 3,
    )
