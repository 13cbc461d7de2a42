-- ===== src/Tests/Lending.antt =====
-- The credits of fwsignal.c.
use omdrop_awdl.Prelude.{ℕ, ◌≤◌, ◌≡◌, refl, true, arith, update, ltb, if◌then◌else◌, ◌+◌, ◌-◌}
use omdrop_awdl.Fwsignal.Credits.{borrow_credit, borrow_from, lend, return_credits}
use omdrop_awdl.Fwsignal.Credits.Repay.{wealth}
use omdrop_awdl.Fwsignal.Credits.Balance.{debt, Ledger, Reach, here, next, borrows_one, returns}
use omdrop_awdl.Fwsignal.Credits.Returning.{announced, Reach-bounds, Reach-restored}

-- Background and best effort have two credits each; voice has none, and borrows one of them.
abbrev two : ℕ → ℕ
two i = if ltb i 2 then 2 else 0

abbrev lending : Ledger
lending = record {
  credits = (borrow_credit (announced two).credits 2 3 true).1;
  sent =
      update (λ i. 0) 3 (0 + (if (borrow_credit (announced two).credits 2 3 true).0 then 1 else 0));
}

lending_credit : lending.credits.fifo_credit 0 ≡ 1
unfolding borrow_credit borrow_from lend
lending_credit = refl

lending_sent : lending.sent 3 ≡ 1
unfolding borrow_credit borrow_from lend
lending_sent = refl

lending_reached : Reach (announced two) lending
lending_reached = next here (borrows_one 3 true refl)

Reach-bounds_example : (wealth lending.credits 0 ≤ 2) × (debt lending.credits 0 ≤ lending.sent 0)
Reach-bounds_example = Reach-bounds two lending 0 lending_reached (omega arith)

-- The credit comes back to the lender.
abbrev returned : Ledger
returned = record {
  credits = return_credits lending.credits 3 1;
  sent = update lending.sent 3 (lending.sent 3 - 1);
}

returned_idle : (fifo : ℕ) → returned.sent fifo ≡ 0
returned_idle fifo = ground (arith, lending_sent)

returned_reached : Reach (announced two) returned
returned_reached = next lending_reached (returns 3 1 (omega arith) (omega (arith, lending_sent)))

Reach-restored_example : returned.credits.fifo_credit 0 ≡ 2
Reach-restored_example = Reach-restored two returned 0 returned_reached returned_idle (omega arith)
