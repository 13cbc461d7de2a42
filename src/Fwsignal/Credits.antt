-- ===== src/Fwsignal/Credits.antt =====
-- fwsignal.c: the credits of the fifos of the firmware, and their lending between access categories.
pub mod Repay
pub mod Balance
pub mod Returning
use omdrop_awdl.Prelude.{
  ℕ, zero, suc, ◌+◌, ◌-◌, ◌/◌, Bool, true, false, not, ◌&&◌, ◌==◌, ltb, leb, update, if◌then◌else◌,
}

-- BRCMF_FWS_FIFO_AC_BK to BRCMF_FWS_FIFO_AC_VO, and BRCMF_FWS_FIFO_COUNT
abbrev pub ac_bk : ℕ
ac_bk = 0

abbrev pub ac_vo : ℕ
ac_vo = 3

abbrev pub fifo_count : ℕ
fifo_count = 6

-- BRCMF_BORROW_RATIO
abbrev pub borrow_ratio : ℕ
borrow_ratio = 3

-- The credits in `struct brcmf_fws_info`; `fifo_credit_map` by its bits, and `credits_borrowed` by
-- borrower and lender. The counts are not negative.
pub record Credits : Type 0 where
  pub fifo_credit : ℕ → ℕ
  pub init_fifo_credit : ℕ → ℕ
  pub credits_borrowed : ℕ → ℕ → ℕ
  pub fifo_credit_map : ℕ → Bool

-- `credits_borrowed[fifo][lender_ac] = n`
abbrev pub set_borrowed : Credits → ℕ → ℕ → ℕ → ℕ → ℕ → ℕ
set_borrowed s fifo lender_ac n =
    update s.credits_borrowed fifo (update (s.credits_borrowed fifo) lender_ac n)

-- `credits` of what `fifo` has borrowed go back to the lender.
unfoldable pub give_back : Credits → ℕ → ℕ → ℕ → Credits
give_back s fifo lender_ac credits = record s {
  fifo_credit_map = update s.fifo_credit_map lender_ac true;
  credits_borrowed = set_borrowed s fifo lender_ac (s.credits_borrowed fifo lender_ac - credits);
  fifo_credit = update s.fifo_credit lender_ac (s.fifo_credit lender_ac + credits);
}

-- The loop over the lenders, from the one below `count` down to 0: the credits that are left, 0 if
-- the code has returned.
unfoldable pub repay : ℕ → Credits → ℕ → ℕ → ℕ × Credits
unfolding give_back
repay zero s fifo credits = (credits, s)
repay (suc lender_ac) s fifo credits =
    let borrowed : ℕ = s.credits_borrowed fifo lender_ac in
    let skip : ℕ × Credits = repay lender_ac s fifo credits in
    let partly : ℕ × Credits =
      repay lender_ac (give_back s fifo lender_ac borrowed) fifo (credits - borrowed) in
    if borrowed == 0
    then skip
    else if leb credits borrowed
    then (0, give_back s fifo lender_ac credits)
    else partly

-- The fifo's own credits, no more than it began with.
unfoldable pub take_own : Credits → ℕ → ℕ → Credits
take_own s fifo credits =
    let own : ℕ = s.fifo_credit fifo + credits in
    record s {
      fifo_credit =
          update s.fifo_credit fifo
            (if ltb (s.init_fifo_credit fifo) own then s.init_fifo_credit fifo else own);
    }

unfoldable pub return_credits : Credits → ℕ → ℕ → Credits
return_credits s fifo credits =
    let s1 : Credits = record s { fifo_credit_map = update s.fifo_credit_map fifo true } in
    let (left, s2) = repay (ac_vo + 1) s1 fifo credits in
    if credits == 0
    then s
    else if not (ltb ac_bk fifo && leb fifo ac_vo)
    then take_own s1 fifo credits
    else if left == 0
    then s2
    else take_own s2 fifo left

-- One credit of the lender goes to the borrower.
unfoldable pub lend : Credits → ℕ → ℕ → Credits
lend s borrower_ac lender_ac =
    let left : ℕ = s.fifo_credit lender_ac - 1 in
    record s {
      credits_borrowed =
          set_borrowed s borrower_ac lender_ac (s.credits_borrowed borrower_ac lender_ac + 1);
      fifo_credit = update s.fifo_credit lender_ac left;
      fifo_credit_map =
          update (if left == 0 then update s.fifo_credit_map lender_ac false else s.fifo_credit_map)
            borrower_ac true;
    }

-- The loop over the lenders from `lender_ac` on, `count` of them. Whether a credit was borrowed is
-- returned.
unfoldable pub borrow_from : ℕ → Credits → ℕ → ℕ → Bool → Bool × Credits
borrow_from zero s lender_ac borrower_ac borrow_all =
    (false, record s { fifo_credit_map = update s.fifo_credit_map borrower_ac false })
borrow_from (suc count) s lender_ac borrower_ac borrow_all =
    let limit : ℕ = if borrow_all then 0 else s.init_fifo_credit lender_ac / borrow_ratio in
    let rest : Bool × Credits = borrow_from count s (lender_ac + 1) borrower_ac borrow_all in
    if ltb limit (s.fifo_credit lender_ac) then (true, lend s borrower_ac lender_ac) else rest

unfoldable pub borrow_credit : Credits → ℕ → ℕ → Bool → Bool × Credits
borrow_credit s highest_lender_ac borrower_ac borrow_all =
    borrow_from (highest_lender_ac + 1) s 0 borrower_ac borrow_all

-- The loop of fifocreditback_indicate over the fifos from `i` on, `count` of them.
unfoldable pub return_each : ℕ → Credits → ℕ → (ℕ → ℕ) → Credits
return_each zero s i data_at = s
return_each (suc count) s i data_at =
    return_each count (return_credits s i (data_at i)) (i + 1) data_at

-- With explicit credits; the signal is ignored in the other modes.
unfoldable pub fifocreditback_indicate : Bool → Credits → (ℕ → ℕ) → Credits
fifocreditback_indicate explicit_credit s data_at =
    if not explicit_credit then s else return_each fifo_count s 0 data_at
