-- ===== src/Fwsignal/Reorder/Taking.antt =====
-- get_skb_list and store on a flow that is well formed.
use omdrop_awdl.Prelude.{
  ℕ, ◌+◌, ◌-◌, ◌≤◌, ◌<◌, ◌≡◌, refl, ◌∙◌, ap, sym, Option, none, some, List, [], ◌∷◌, ◌++◌, ◌==◌,
  length, length-append, update, arith, Bool-cases, inl, inr, if◌then◌else◌, ◌>>=◌, sub8, u8,
}
use omdrop_awdl.Fwsignal.Reorder.{ReorderInfo, slot_at, slot_pkts, get_skb_list, store, new_flow}
use omdrop_awdl.Fwsignal.Reorder.Window.{IsSized}
use omdrop_awdl.Fwsignal.Reorder.Held.{
  held, window, get_skb_list-window, range-none, measure-update, measure-window, measure-window_all,
  measure-slot,
}

-- How often a packet is in a list.
abbrev pub occurrences : ℕ → List ℕ → ℕ
occurrences p [] = 0
occurrences p (x ∷ xs) = (if x == p then 1 else 0) + occurrences p xs

pub occurrences-append :
    (p : ℕ) (xs ys : List ℕ) → occurrences p (xs ++ ys) ≡ occurrences p xs + occurrences p ys
occurrences-append p [] ys = omega arith
occurrences-append p (x ∷ xs) ys = omega (arith, occurrences-append p xs ys)

-- The slots are there, the expected index names one of them, and every packet is counted.
pub record IsFlow (rfi : ReorderInfo) : Type 0 where
  pub sized : IsSized rfi
  pub exp_in : rfi.exp_idx ≤ rfi.max_idx
  pub counted : length (held rfi) ≤ rfi.pend_pkts
  pub low : rfi.pend_pkts < 256

pub new_flow-IsFlow : (max_idx : ℕ) → max_idx < 256 → IsFlow (new_flow max_idx)
new_flow-IsFlow max_idx h = record {
  sized = record { sized = refl; byte = h };
  exp_in = omega arith;
  counted = rw (range-none (λ i. none) 0 (max_idx + 1) (λ j a b. refl)) (omega arith);
  low = omega arith;
}

-- What a flow is once some packets have been taken from it.
pub record Took (rfi : ReorderInfo) (pkts : List ℕ) (rfi1 : ReorderInfo) : Type 0 where
  pub flow : IsFlow rfi1
  pub same_max : rfi1.max_idx ≡ rfi.max_idx
  pub same_exp : rfi1.exp_idx ≡ rfi.exp_idx
  pub fewer : rfi1.pend_pkts ≤ rfi.pend_pkts
  pub conserved :
      (p : ℕ) → occurrences p pkts + occurrences p (held rfi1) ≡ occurrences p (held rfi)
  pub still_empty : (i : ℕ) → i ≤ rfi.max_idx → rfi.pktslots i ≡ none → rfi1.pktslots i ≡ none

-- A flow that holds nothing has empty slots.
pub held-none :
    (rfi : ReorderInfo) (i : ℕ) → length (held rfi) ≡ 0 → i ≤ rfi.max_idx → rfi.pktslots i ≡ none
held-none rfi i e i_in =
    let one =
      measure-slot length refl length-append rfi.pktslots i (rfi.max_idx + 1) (omega arith) in
    slot-none (rfi.pktslots i) (omega arith)
  where
    slot-none : (o : Option ℕ) → length (slot_pkts o) ≡ 0 → o ≡ none
    slot-none none h = refl
    slot-none (some pkt) h = absurd (omega arith)

module _ (rfi : ReorderInfo) (start end : ℕ) (v : IsFlow rfi) (start_in : start ≤ rfi.max_idx)
    (end_in : end ≤ rfi.max_idx) where
  pub get_skb_list-Took :
      (pkts : List ℕ) × (rfi1 : ReorderInfo) × (get_skb_list rfi start end ≡ some (pkts, rfi1))
      × Took rfi pkts rfi1
      × (start ≡ end → length (held rfi1) ≡ 0)
  get_skb_list-Took = elim (Bool-cases (rfi.pend_pkts == 0)) [
    | inl e ↦ (
      [],
      rfi,
      unfold get_skb_list in rw e refl,
      record {
        flow = v;
        same_max = refl;
        same_exp = refl;
        fewer = omega arith;
        conserved = λ p. omega arith;
        still_empty = λ i b h. h;
      },
      λ same. ground (arith, v.counted),
    )
    | inr e ↦
        let (left, got, cleared) =
          get_skb_list-window rfi start end v.sized start_in end_in (ground arith) in
        let count =
          measure-window length refl length-append rfi start end left start_in end_in cleared in
        let pkts = window rfi start end in
        let fits : sub8 rfi.pend_pkts (u8 (length pkts)) ≡ rfi.pend_pkts - length pkts =
          omega (arith, v.counted, v.low, count) in
        (
          pkts,
          _,
          got,
          record {
            flow = record {
              sized = record { sized = v.sized.sized; byte = v.sized.byte };
              exp_in = v.exp_in;
              counted = omega (arith, v.counted, fits, count);
              low = omega (arith, v.low, fits);
            };
            same_max = refl;
            same_exp = refl;
            fewer = omega (arith, fits);
            conserved = λ p.
                measure-window (occurrences p) refl (occurrences-append p) rfi start end left
                  start_in end_in cleared;
            still_empty = λ i b h. ground (arith, cleared i b);
          },
          λ same.
              let all =
                ap (λ e. length (window rfi start e)) (sym same)
                ∙ measure-window_all length refl length-append rfi start start_in in
              omega (arith, count, all),
        )
  ]

-- A flow whose slot `i` takes a packet.
pub record Stored (rfi : ReorderInfo) (i pkt : ℕ) (rfi1 : ReorderInfo) : Type 0 where
  pub sized : IsSized rfi1
  pub counted : length (held rfi1) ≤ rfi1.pend_pkts
  pub low : rfi1.pend_pkts < 256
  pub same_max : rfi1.max_idx ≡ rfi.max_idx
  pub same_exp : rfi1.exp_idx ≡ rfi.exp_idx
  pub replaced :
      (p : ℕ)
      → occurrences p (held rfi1) + occurrences p (slot_pkts (rfi.pktslots i))
        ≡ occurrences p (held rfi) + occurrences p (pkt ∷ [])

pub store-Stored :
    (rfi : ReorderInfo) (i pkt : ℕ)
    → IsSized rfi
    → length (held rfi) ≤ rfi.pend_pkts
    → i ≤ rfi.max_idx
    → rfi.pend_pkts < 255
    → (rfi1 : ReorderInfo) × (store rfi i pkt ≡ some rfi1) × Stored rfi i pkt rfi1
unfolding store
store-Stored rfi i pkt v counted i_in low =
    let there : slot_at rfi i ≡ some (rfi.pktslots i) = ground (arith, v.sized) in
    let count =
      measure-update length refl length-append rfi.pktslots i (rfi.max_idx + 1) pkt (omega arith) in
    (
      _,
      ap
          (λ o. o >>= (λ slot. some (record rfi {
            pktslots = update rfi.pktslots i (some pkt);
            pend_pkts = u8 (rfi.pend_pkts + 1);
          })))
          there,
      record {
        sized = record { sized = v.sized; byte = v.byte };
        counted = omega (arith, count);
        low = omega arith;
        same_max = refl;
        same_exp = refl;
        replaced = λ p.
            measure-update (occurrences p) refl (occurrences-append p) rfi.pktslots i
              (rfi.max_idx + 1) pkt (omega arith);
      },
    )
