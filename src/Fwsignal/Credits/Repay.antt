-- ===== src/Fwsignal/Credits/Repay.antt =====
-- fwsignal.c: what borrowing and returning do to the credits of each fifo.
use omdrop_awdl.Prelude.{
  ℕ, zero, suc, ◌+◌, ◌-◌, ◌≤◌, ◌<◌, ◌≡◌, ◌≢◌, refl, ◌∙◌, ◌==◌, leb, arith, Bool-cases, inl, inr,
  if◌then◌else◌,
}
use omdrop_awdl.Fwsignal.Credits.{Credits, give_back, repay}

-- What the access categories have borrowed from `lender_ac`.
abbrev pub lent : Credits → ℕ → ℕ
lent s lender_ac =
    s.credits_borrowed 1 lender_ac + s.credits_borrowed 2 lender_ac + s.credits_borrowed 3 lender_ac

-- What `fifo` has borrowed from the access categories below `count`.
abbrev pub owed : Credits → ℕ → ℕ → ℕ
owed s fifo zero = 0
owed s fifo (suc count) = owed s fifo count + s.credits_borrowed fifo count

-- The credits of a fifo, at home or lent.
abbrev pub wealth : Credits → ℕ → ℕ
wealth s i = s.fifo_credit i + (if leb i 3 then lent s i else 0)

-- `s'` differs from `s` in what `fifo` owes.
pub record Moved (s s' : Credits) (fifo : ℕ) : Type 0 where
  pub same_init : s'.init_fifo_credit ≡ s.init_fifo_credit
  pub same_wealth : (i : ℕ) → wealth s' i ≡ wealth s i
  pub same_others : (j l : ℕ) → fifo ≢ j → s'.credits_borrowed j l ≡ s.credits_borrowed j l

module _ (s : Credits) (fifo lender_ac credits : ℕ) (is_ac : (0 < fifo) × (fifo ≤ 3))
    (lender_in : lender_ac ≤ 3) (enough : credits ≤ s.credits_borrowed fifo lender_ac) where
  give_back-Moved : Moved s (give_back s fifo lender_ac credits) fifo
  unfolding give_back
  give_back-Moved = record {
    same_init = refl;
    same_wealth = λ i. ground (arith, is_ac, lender_in, enough);
    same_others = λ j l n. ground arith;
  }

pub owed-cong :
    (s s' : Credits) (fifo count : ℕ)
    → ((l : ℕ) → l < count → s'.credits_borrowed fifo l ≡ s.credits_borrowed fifo l)
    → owed s' fifo count ≡ owed s fifo count
owed-cong s s' fifo zero same = refl
owed-cong s s' fifo (suc count) same =
    omega (arith, owed-cong s s' fifo count (λ l b. same l (omega arith)), same count (omega arith))

give_back-others :
    (s : Credits) (fifo lender_ac credits l : ℕ)
    → lender_ac ≢ l
    → (give_back s fifo lender_ac credits).credits_borrowed fifo l ≡ s.credits_borrowed fifo l
unfolding give_back
give_back-others s fifo lender_ac credits l ne = ground arith

give_back_self :
    (s : Credits) (fifo lender_ac credits : ℕ)
    → (give_back s fifo lender_ac credits).credits_borrowed fifo lender_ac
      ≡ s.credits_borrowed fifo lender_ac - credits
unfolding give_back
give_back_self s fifo lender_ac credits = ground arith

Moved-refl : (s : Credits) (fifo : ℕ) → Moved s s fifo
Moved-refl s fifo = record {
  same_init = refl;
  same_wealth = λ i. refl;
  same_others = λ j l n. refl;
}

Moved-trans :
    {s s' s'' : Credits} {fifo : ℕ} → Moved s s' fifo → Moved s' s'' fifo → Moved s s'' fifo
Moved-trans m m' = record {
  same_init = m'.same_init ∙ m.same_init;
  same_wealth = λ i. m'.same_wealth i ∙ m.same_wealth i;
  same_others = λ j l n. m'.same_others j l n ∙ m.same_others j l n;
}

-- What the loop over the lenders below `count` does: it pays as much as it can.
pub record Repaid (s : Credits) (fifo credits count : ℕ) (result : ℕ × Credits) : Type 0 where
  pub moved : Moved s result.1 fifo
  pub paid : owed result.1 fifo count + credits ≡ owed s fifo count + result.0
  pub cleared : result.0 ≢ 0 → owed result.1 fifo count ≡ 0
  pub above : (l : ℕ) → count ≤ l → result.1.credits_borrowed fifo l ≡ s.credits_borrowed fifo l

pub repay-Repaid :
    (count : ℕ) (s : Credits) (fifo credits : ℕ)
    → (0 < fifo) × (fifo ≤ 3)
    → count ≤ 4
    → credits ≢ 0
    → Repaid s fifo credits count (repay count s fifo credits)
unfolding repay
repay-Repaid zero s fifo credits is_ac count_in some_credit = record {
  moved = Moved-refl s fifo;
  paid = omega arith;
  cleared = λ h. refl;
  above = λ l b. refl;
}
repay-Repaid (suc n) s fifo credits is_ac count_in some_credit =
    let borrowed = s.credits_borrowed fifo n in
    elim (Bool-cases (borrowed == 0)) [
      | inl none_here ↦
          let r = repay-Repaid n s fifo credits is_ac (omega arith) some_credit in
          rw none_here (record {
            moved = r.moved;
            paid = omega (arith, r.paid, r.above n (omega arith));
            cleared = λ h. ground (arith, r.cleared h, r.above n);
            above = λ l b. r.above l (omega arith);
          })
      | inr some_here ↦ elim (Bool-cases (leb credits borrowed)) [
        | inl enough ↦
            let s1 = give_back s fifo n credits in
            let same =
              owed-cong s s1 fifo n (λ l b. give_back-others s fifo n credits l (omega arith)) in
            let self = give_back_self s fifo n credits in
            rw (some_here, enough)
              (record {
                moved = give_back-Moved s fifo n credits is_ac (omega arith) (ground arith);
                paid = ground (arith, same, self);
                cleared = λ h. absurd (h refl);
                above = λ l b. give_back-others s fifo n credits l (omega arith);
              })
        | inr less ↦
            let s1 = give_back s fifo n borrowed in
            let same =
              owed-cong s s1 fifo n (λ l b. give_back-others s fifo n borrowed l (omega arith)) in
            let self = give_back_self s fifo n borrowed in
            let r =
              repay-Repaid n s1 fifo (credits - borrowed) is_ac (omega arith) (ground arith) in
            let here = r.above n (omega arith) in
            rw (some_here, less)
              (record {
                moved =
                    Moved-trans
                      (give_back-Moved s fifo n borrowed is_ac (omega arith) (omega arith)) r.moved;
                paid = ground (arith, same, self, r.paid, here);
                cleared = λ h. ground (arith, self, r.cleared h, here);
                above = λ l b.
                    r.above l (omega arith) ∙ give_back-others s fifo n borrowed l (omega arith);
              })
      ]
    ]
