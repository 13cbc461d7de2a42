-- ===== src/Tests/Queues.antt =====
-- The packet queue: brcmutil/utils.c.
use omdrop_awdl.Prelude.{ℕ, List, ◌<◌, ◌≡◌, ◌⊎◌, refl, some, none, [], ◌∷◌, ◌++◌, arith, ◌==◌}
use omdrop_awdl.Pktq.{
  Pktq, penq, mdeq, init, peek_tail, flush, in_bmp, mdeq_at, highest_used, lower_hi, take_out,
  first_of,
}
use omdrop_awdl.Pktq.Total.{IsSound, total}
use omdrop_awdl.Pktq.Life.{here, step, penqs, Reach-IsSound}
use omdrop_awdl.Pktq.Order.{IsMdeq, mdeq-IsMdeq}
use omdrop_awdl.Pktq.Sums.{peek_tail_lem}
use omdrop_awdl.Pktq.Flush.{flush_lem, refused, accepted_from}

-- Three precedences, with packet 7 in precedence 2, and 8 and 9 in precedence 1.
abbrev three : Pktq
three = (penq (penq (penq (init 3 8) 2 7).1 1 8).1 1 9).1

three_lists : (three.q 1).skblist ≡ 8 ∷ 9 ∷ []
unfolding penq init
three_lists = refl

three_taken : (mdeq three 0b110).0 ≡ some (2, 7)
unfolding penq init mdeq mdeq_at highest_used lower_hi in_bmp take_out first_of
three_taken = refl

two_in : 2 < (init 3 8).num_prec
unfolding init
two_in = omega arith

Reach-IsSound_example : IsSound (penq (init 3 8) 2 7).1
Reach-IsSound_example =
    Reach-IsSound 3 8 _ (omega arith) (omega arith) (step here (penqs 2 7 two_in))

three-IsSound : IsSound three
unfolding penq init
three-IsSound = Reach-IsSound 3 8 three (omega arith) (omega arith) (
    step (step (step here (penqs 2 7 (omega arith))) (penqs 1 8 (omega arith)))
      (penqs 1 9 (omega arith)))

mdeq-IsMdeq_example : IsMdeq three 0b11 (mdeq three 0b11)
mdeq-IsMdeq_example = mdeq-IsMdeq three 0b11 three-IsSound

peek_tail_lem_example :
    ((peek_tail three ≡ none) × (total three.q three.num_prec ≡ 0))
    ⊎ ((prec p : ℕ) × (rest : List ℕ) × (peek_tail three ≡ some (prec, p))
        × ((three.q prec).skblist ≡ rest ++ (p ∷ []))
        × ((lower : ℕ) → lower < prec → (three.q lower).skblist ≡ []))
peek_tail_lem_example = peek_tail_lem three three-IsSound

flush_lem_example :
    (((flush three (some (λ p. p == 8))).1.q 1).skblist
      ≡ refused (some (λ p. p == 8)) (three.q 1).skblist)
    × ((flush three (some (λ p. p == 8))).0
        ≡ accepted_from (some (λ p. p == 8)) three.q 0 three.num_prec)
flush_lem_example = flush_lem three (some (λ p. p == 8)) 1 (unfold penq init in omega arith)
