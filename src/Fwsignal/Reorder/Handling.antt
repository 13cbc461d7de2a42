-- ===== src/Fwsignal/Reorder/Handling.antt =====
-- fwsignal.c: the ways in which brcmf_fws_rxreorder handles a packet of a flow.
use omdrop_awdl.Prelude.{
  ℕ, ◌+◌, ◌%◌, ◌≤◌, ◌<◌, ◌≡◌, ◌≢◌, refl, ◌∙◌, ap, sym, true, false, not, ◌&&◌, none, some, List, [],
  ◌∷◌, ◌++◌, ◌==◌, arith, Bool-cases, inl, inr, if◌then◌else◌,
}
use omdrop_awdl.Fwsignal.Reorder.{
  ReorderInfo, ReorderData, slot_at, slot_pkts, get_skb_list, is_new_hole, is_curidx_valid,
  is_flush_all, Handled, new_hole, fill_hole, take_expected, end_of, move_both, move_window, handle,
}
use omdrop_awdl.Fwsignal.Reorder.Held.{held}
use omdrop_awdl.Fwsignal.Reorder.Taking.{
  occurrences, occurrences-append, IsFlow, held-none, get_skb_list-Took, store-Stored,
}

-- The indices of the firmware lie in the flow.
pub record IsSane (rfi : ReorderInfo) (d : ReorderData) : Type 0 where
  pub cur_in : d.cur_idx ≤ rfi.max_idx
  pub exp_in : d.exp_idx ≤ rfi.max_idx
  pub same_max : is_new_hole d.flags ≡ true → d.max_idx ≡ rfi.max_idx
  pub room : rfi.pend_pkts < 255

-- A packet that opens no hole, is not the expected one and does not fall in the current hole goes
-- to an empty slot.
abbrev pub IsFresh : ReorderInfo → ReorderData → Type 0
IsFresh rfi d =
    is_new_hole d.flags ≡ false
    → d.exp_idx ≢ rfi.exp_idx
    → d.cur_idx ≢ rfi.exp_idx
    → rfi.pktslots d.cur_idx ≡ none

-- What a packet does: the flow stays well formed; no packet is there twice that was not, and none
-- is lost if the slot is fresh.
pub record Handles (rfi : ReorderInfo) (d : ReorderData) (pkt : ℕ) (result : Handled) : Type 0 where
  pub pkts : List ℕ
  pub frees : List ℕ
  pub rfi1 : ReorderInfo
  pub done : result ≡ some (pkts, (frees, rfi1))
  pub flow : IsFlow rfi1
  pub never_more :
      (p : ℕ)
      → occurrences p pkts + occurrences p frees + occurrences p (held rfi1)
        ≤ occurrences p (held rfi) + occurrences p (pkt ∷ [])
  pub never_less :
      IsFresh rfi d
      → (p : ℕ)
      → occurrences p (held rfi) + occurrences p (pkt ∷ [])
        ≤ occurrences p pkts + occurrences p frees + occurrences p (held rfi1)

module _ (rfi : ReorderInfo) (d : ReorderData) (pkt : ℕ) (v : IsFlow rfi)
    (sane : IsSane rfi d) where
  fill_hole-Handles : Handles rfi d pkt (fill_hole rfi d pkt)
  unfolding fill_hole
  fill_hole-Handles =
      let there : slot_at rfi d.cur_idx ≡ some (rfi.pktslots d.cur_idx) =
        ground (arith, v.sized.sized, sane.cur_in) in
      let (rfi1, e, st) = store-Stored rfi d.cur_idx pkt v.sized v.counted sane.cur_in sane.room in
      record {
        pkts = [];
        frees = slot_pkts (rfi.pktslots d.cur_idx);
        rfi1 = record rfi1 { cur_idx = d.cur_idx };
        done = rw there (rw e refl);
        flow = record {
          sized = record { sized = st.sized.sized; byte = st.sized.byte };
          exp_in = rw (st.same_exp, st.same_max) v.exp_in;
          counted = st.counted;
          low = st.low;
        };
        never_more = λ p. omega (arith, st.replaced p);
        never_less = λ fresh p. omega (arith, st.replaced p);
      }

  take_expected-Handles : Handles rfi d pkt (take_expected rfi d pkt)
  unfolding take_expected
  take_expected-Handles =
      let there : slot_at rfi d.cur_idx ≡ some (rfi.pktslots d.cur_idx) =
        ground (arith, v.sized.sized, sane.cur_in) in
      let (rfi1, e, st) = store-Stored rfi d.cur_idx pkt v.sized v.counted sane.cur_in sane.room in
      let moved : ReorderInfo = record rfi1 { cur_idx = d.cur_idx; exp_idx = d.exp_idx } in
      let moved-IsFlow : IsFlow moved = record {
        sized = record { sized = st.sized.sized; byte = st.sized.byte };
        exp_in = rw st.same_max sane.exp_in;
        counted = st.counted;
        low = st.low;
      } in
      let (pkts, rfi2, got, took, _) =
        get_skb_list-Took moved d.cur_idx d.exp_idx moved-IsFlow (rw st.same_max sane.cur_in)
          (rw st.same_max sane.exp_in) in
      record {
        pkts = pkts;
        frees = slot_pkts (rfi.pktslots d.cur_idx);
        rfi1 = rfi2;
        done = rw there (rw e (rw got refl));
        flow = took.flow;
        never_more = λ p. omega (arith, st.replaced p, took.conserved p);
        never_less = λ fresh p. omega (arith, st.replaced p, took.conserved p);
      }

  hole_list :
      (start end : ℕ)
      → (if rfi.pend_pkts == 0 then some ([], rfi) else get_skb_list rfi start end)
        ≡ get_skb_list rfi start end
  unfolding get_skb_list
  hole_list start end = elim (Bool-cases (rfi.pend_pkts == 0)) [
    | inl e ↦ rw e refl
    | inr e ↦ rw e refl
  ]

  new_hole-Handles : is_new_hole d.flags ≡ true → Handles rfi d pkt (new_hole rfi d pkt)
  unfolding new_hole
  new_hole-Handles flag =
      let (pkts, rfi1, got, took, emptied) =
        get_skb_list-Took rfi rfi.exp_idx rfi.exp_idx v v.exp_in v.exp_in in
      let same : d.max_idx ≡ rfi1.max_idx = sane.same_max flag ∙ sym took.same_max in
      let moved : ReorderInfo = record rfi1 {
        cur_idx = d.cur_idx;
        exp_idx = d.exp_idx;
        max_idx = d.max_idx;
      } in
      let moved-held : held moved ≡ held rfi1 = rw same refl in
      let empty = held-none rfi1 d.cur_idx (emptied refl) (rw took.same_max sane.cur_in) in
      let (rfi2, e, st) =
        store-Stored moved d.cur_idx pkt
          (record { sized = rw same took.flow.sized.sized; byte = rw same took.flow.sized.byte })
          (rw moved-held took.flow.counted) (rw (sane.same_max flag) sane.cur_in)
          (omega (arith, took.fewer, sane.room)) in
      let count = λ (p : ℕ). ap (occurrences p) moved-held in
      let gone = λ (p : ℕ). ap (λ o. occurrences p (slot_pkts o)) empty in
      record {
        pkts = pkts;
        frees = [];
        rfi1 = rfi2;
        done = rw (hole_list rfi.exp_idx rfi.exp_idx) (rw got (rw e refl));
        flow = record {
          sized = st.sized;
          exp_in = rw (st.same_exp, st.same_max, sane.same_max flag) sane.exp_in;
          counted = st.counted;
          low = st.low;
        };
        never_more = λ p. omega (arith, st.replaced p, took.conserved p, count p, gone p);
        never_less = λ fresh p. omega (arith, st.replaced p, took.conserved p, count p, gone p);
      }

  end_in : end_of rfi d ≤ rfi.max_idx
  end_in = elim (Bool-cases (is_flush_all d.flags)) [
    | inl e ↦ rw e v.exp_in
    | inr e ↦ rw e sane.exp_in
  ]

  move_window-Handles : Handles rfi d pkt (move_window rfi d pkt)
  unfolding move_window
  move_window-Handles =
      let (pkts, rfi1, got, took, _) =
        get_skb_list-Took rfi rfi.exp_idx (end_of rfi d) v v.exp_in end_in in
      record {
        pkts = pkts ++ (pkt ∷ []);
        frees = [];
        rfi1 = record rfi1 { exp_idx = d.exp_idx };
        done = rw got refl;
        flow = record {
          sized = record { sized = took.flow.sized.sized; byte = took.flow.sized.byte };
          exp_in = rw took.same_max sane.exp_in;
          counted = took.flow.counted;
          low = took.flow.low;
        };
        never_more = λ p. omega (arith, took.conserved p, occurrences-append p pkts (pkt ∷ []));
        never_less =
            λ fresh p. omega (arith, took.conserved p, occurrences-append p pkts (pkt ∷ []));
      }

  module _ (flag : is_new_hole d.flags ≡ false) (apart : d.exp_idx ≢ rfi.exp_idx)
      (ahead : d.cur_idx ≢ rfi.exp_idx) where
    move_both-Handles : Handles rfi d pkt (move_both rfi d pkt)
    unfolding move_both
    move_both-Handles =
        let (pkts, rfi1, got, took, _) =
          get_skb_list-Took rfi rfi.exp_idx (end_of rfi d) v v.exp_in end_in in
        elim (Bool-cases (d.exp_idx == (d.cur_idx + 1) % (rfi1.max_idx + 1))) [
          | inl in_order ↦ record {
            pkts = pkts ++ (pkt ∷ []);
            frees = [];
            rfi1 = record rfi1 { exp_idx = d.exp_idx; cur_idx = d.cur_idx };
            done = rw got (rw in_order refl);
            flow = record {
              sized = record { sized = took.flow.sized.sized; byte = took.flow.sized.byte };
              exp_in = rw took.same_max sane.exp_in;
              counted = took.flow.counted;
              low = took.flow.low;
            };
            never_more = λ p. omega (arith, took.conserved p, occurrences-append p pkts (pkt ∷ []));
            never_less =
                λ fresh p. omega (arith, took.conserved p, occurrences-append p pkts (pkt ∷ []));
          }
          | inr out ↦
              let (rfi2, e, st) =
                store-Stored rfi1 d.cur_idx pkt took.flow.sized took.flow.counted
                  (rw took.same_max sane.cur_in) (omega (arith, took.fewer, sane.room)) in
              record {
                pkts = pkts ++ [];
                frees = [];
                rfi1 = record rfi2 { exp_idx = d.exp_idx; cur_idx = d.cur_idx };
                done = rw got (rw out (rw e refl));
                flow = record {
                  sized = record { sized = st.sized.sized; byte = st.sized.byte };
                  exp_in = rw (st.same_max, took.same_max) sane.exp_in;
                  counted = st.counted;
                  low = st.low;
                };
                never_more = λ p.
                    omega (arith, took.conserved p, st.replaced p, occurrences-append p pkts []);
                never_less = λ fresh p.
                    let empty =
                      ap (λ o. occurrences p (slot_pkts o))
                        (took.still_empty d.cur_idx sane.cur_in (fresh flag apart ahead)) in
                    omega
                      (arith, took.conserved p, st.replaced p, occurrences-append p pkts [], empty);
              }
        ]

  pub handle-Handles : Handles rfi d pkt (handle rfi d pkt)
  unfolding handle
  handle-Handles = elim (Bool-cases (is_new_hole d.flags)) [
    | inl hole ↦ rw hole (new_hole-Handles hole)
    | inr flag ↦ elim (Bool-cases (is_curidx_valid d.flags)) [
      | inr invalid ↦ rw (flag, invalid) move_window-Handles
      | inl valid ↦
          elim (Bool-cases ((d.exp_idx == rfi.exp_idx) && not (d.cur_idx == rfi.exp_idx))) [
            | inl same ↦ rw (flag, valid) (rw same fill_hole-Handles)
            | inr other ↦ elim (Bool-cases (rfi.exp_idx == d.cur_idx)) [
              | inl expected ↦ rw (flag, valid) (rw other (rw expected take_expected-Handles))
              | inr ahead ↦
                  rw (flag, valid)
                    (rw other
                      (rw ahead (move_both-Handles flag (λ e. ground arith) (λ e. ground arith))))
            ]
          ]
    ]
  ]
