-- ===== src/Fwsignal/Reorder/Safety.antt =====
-- brcmf_fws_rxreorder on a table of well-formed flows.
use mathlib.Core.Option.{some-injective}
use omdrop_awdl.Prelude.{
  length, update_self, ℕ, ◌+◌, ◌≤◌, ◌<◌, ◌≡◌, ◌≢◌, refl, ap, Bool, true, false, Option, none, some,
  List, [], ◌∷◌, ◌++◌, ◌==◌, arith, update, Bool-cases, inl, inr,
}
use omdrop_awdl.Fwsignal.Reorder.{
  ReorderInfo, ReorderData, Reorder, is_del_flow, new_flow, deliver, use_flow, delete_flow,
  find_flow, rxreorder,
}
use omdrop_awdl.Fwsignal.Reorder.Held.{held, range-none}
use omdrop_awdl.Fwsignal.Reorder.Taking.{
  occurrences, occurrences-append, IsFlow, new_flow-IsFlow, get_skb_list-Took,
}
use omdrop_awdl.Fwsignal.Reorder.Handling.{IsSane, IsFresh, handle-Handles}

-- The packets of a flow that may not be there.
abbrev pub held_by : Option ReorderInfo → List ℕ
held_by none = []
held_by (some rfi) = held rfi

abbrev pub AllFlows : Reorder → Type 0
AllFlows s = (id : ℕ) (rfi : ReorderInfo) → s.flows id ≡ some rfi → IsFlow rfi

-- The flow that the packet meets: the one of the table, or a new one.
abbrev pub flow_for : Option ReorderInfo → ReorderData → ReorderInfo
flow_for none d = new_flow d.max_idx
flow_for (some rfi) d = rfi

-- All the places of packet `p`.
abbrev pub places : ℕ → Reorder → ℕ → ℕ
places p s id = occurrences p s.rx + occurrences p s.freed + occurrences p (held_by (s.flows id))

-- What a call does to the table and to the packets.
pub record Reordered (s : Reorder) (d : ReorderData) (pkt : ℕ) (s' : Reorder) : Type 0 where
  pub all : AllFlows s'
  pub others : (id : ℕ) → d.flow_id ≢ id → s'.flows id ≡ s.flows id
  pub never_more : (p : ℕ) → places p s' d.flow_id ≤ places p s d.flow_id + occurrences p (pkt ∷ [])
  pub never_less :
      IsFresh (flow_for (s.flows d.flow_id) d) d
      → (p : ℕ) → places p s d.flow_id + occurrences p (pkt ∷ []) ≤ places p s' d.flow_id

deliver-Reordered :
    (s : Reorder) (d : ReorderData) (pkt : ℕ)
    → AllFlows s
    → Reordered s d pkt (deliver s (pkt ∷ []))
deliver-Reordered s d pkt v = record {
  all = v;
  others = λ id n. refl;
  never_more = λ p. omega (arith, occurrences-append p s.rx (pkt ∷ []));
  never_less = λ fresh p. omega (arith, occurrences-append p s.rx (pkt ∷ []));
}

module _ (s : Reorder) (d : ReorderData) (pkt : ℕ) (v : AllFlows s) where
  written-AllFlows :
      (rfi : ReorderInfo) (rx freed : List ℕ)
      → IsFlow rfi
      → AllFlows (record s { flows = update s.flows d.flow_id (some rfi); rx = rx; freed = freed })
  written-AllFlows rfi rx freed w id r e = elim (Bool-cases (d.flow_id == id)) [
    | inl same ↦ rw (some-injective rfi r (ground arith)) at w
    | inr other ↦ v id r (ground arith)
  ]

  use_flow-Reordered :
      (rfi : ReorderInfo)
      → IsFlow rfi
      → IsSane rfi d
      → ((p : ℕ) → occurrences p (held rfi) ≡ occurrences p (held_by (s.flows d.flow_id)))
      → rfi ≡ flow_for (s.flows d.flow_id) d
      → (s' : Reorder) × (use_flow s rfi d pkt ≡ some s') × Reordered s d pkt s'
  unfolding use_flow
  use_flow-Reordered rfi w sane same its =
      let h = handle-Handles rfi d pkt w sane in
      let there : update s.flows d.flow_id (some h.rfi1) d.flow_id ≡ some h.rfi1 =
        update_self s.flows d.flow_id (some h.rfi1) in
      let after = λ (p : ℕ). ap (λ o. occurrences p (held_by o)) there in
      (
        record s {
          flows = update s.flows d.flow_id (some h.rfi1);
          rx = s.rx ++ h.pkts;
          freed = s.freed ++ h.frees;
        },
        rw h.done refl,
        record {
          all = written-AllFlows h.rfi1 (s.rx ++ h.pkts) (s.freed ++ h.frees) h.flow;
          others = λ id n. ground arith;
          never_more = λ p. omega (
            arith,
            h.never_more p,
            same p,
            after p,
            occurrences-append p s.rx h.pkts,
            occurrences-append p s.freed h.frees,
          );
          never_less = λ fresh p.
              let less = h.never_less (rw its fresh) p in
              omega (
                arith,
                less,
                same p,
                after p,
                occurrences-append p s.rx h.pkts,
                occurrences-append p s.freed h.frees,
              );
        },
      )

  delete_flow-Reordered :
      (slot : Option ReorderInfo)
      → s.flows d.flow_id ≡ slot
      → (s' : Reorder) × (delete_flow s slot d pkt ≡ some s') × Reordered s d pkt s'
  unfolding delete_flow
  delete_flow-Reordered none e = (deliver s (pkt ∷ []), refl, deliver-Reordered s d pkt v)
  delete_flow-Reordered (some rfi) e =
      let w = v d.flow_id rfi e in
      let (pkts, rfi1, got, took, emptied) =
        get_skb_list-Took rfi rfi.exp_idx rfi.exp_idx w w.exp_in w.exp_in in
      let gone = λ (p : ℕ). nothing p (held rfi1) (emptied refl) in
      let before = λ (p : ℕ). ap (λ o. occurrences p (held_by o)) e in
      let there : update s.flows d.flow_id none d.flow_id ≡ none =
        update_self s.flows d.flow_id none in
      let after = λ (p : ℕ). ap (λ o. occurrences p (held_by o)) there in
      (
        deliver (record s { flows = update s.flows d.flow_id none }) (pkts ++ (pkt ∷ [])),
        rw got refl,
        record {
          all = λ id r h. v id r (ground arith);
          others = λ id n. ground arith;
          never_more = λ p. omega (
            arith,
            took.conserved p,
            gone p,
            before p,
            after p,
            occurrences-append p s.rx (pkts ++ (pkt ∷ [])),
            occurrences-append p pkts (pkt ∷ []),
          );
          never_less = λ fresh p. omega (
            arith,
            took.conserved p,
            gone p,
            before p,
            after p,
            occurrences-append p s.rx (pkts ++ (pkt ∷ [])),
            occurrences-append p pkts (pkt ∷ []),
          );
        },
      )
    where
      nothing : (p : ℕ) (l : List ℕ) → length l ≡ 0 → occurrences p l ≡ 0
      nothing p [] h = refl
      nothing p (x ∷ l) h = absurd (omega arith)

  find_flow-Reordered :
      (kzalloc : Bool) (slot : Option ReorderInfo)
      → s.flows d.flow_id ≡ slot
      → d.max_idx < 256
      → IsSane (flow_for slot d) d
      → (s' : Reorder) × (find_flow kzalloc s slot d pkt ≡ some s') × Reordered s d pkt s'
  unfolding find_flow
  find_flow-Reordered kzalloc (some rfi) e byte sane =
      use_flow-Reordered rfi (v d.flow_id rfi e) sane (λ p. rw e refl) (rw e refl)
  find_flow-Reordered false none e byte sane =
      (deliver s (pkt ∷ []), refl, deliver-Reordered s d pkt v)
  find_flow-Reordered true none e byte sane =
      use_flow-Reordered (new_flow d.max_idx) (new_flow-IsFlow d.max_idx byte) sane
        (λ p. rw e (ap (occurrences p) (range-none (λ i. none) 0 (d.max_idx + 1) (λ j a b. refl))))
        (rw e refl)

  -- On a table of well-formed flows, with indices that lie in the flow, no change of its size when
  -- a hole is opened and fewer than 255 packets counted, rxreorder ends and leaves no array. It
  -- keeps every flow well formed and the other flows as they are. With the new packet added, no
  -- packet is found more often than before among those delivered, freed and held; and none is found
  -- less often if a packet that opens no hole, is not the expected one and does not fall in the
  -- current hole goes to an empty slot.
  pub rxreorder-Reordered :
      (kzalloc : Bool)
      → d.max_idx < 256
      → IsSane (flow_for (s.flows d.flow_id) d) d
      → (s' : Reorder) × (rxreorder kzalloc s d pkt ≡ some s') × Reordered s d pkt s'
  unfolding rxreorder
  rxreorder-Reordered kzalloc byte sane = elim (Bool-cases (d.flags == 0xff)) [
    | inl e ↦ (deliver s (pkt ∷ []), rw e refl, deliver-Reordered s d pkt v)
    | inr e ↦ elim (Bool-cases (is_del_flow d.flags)) [
      | inl del ↦ rw (e, del) (delete_flow-Reordered (s.flows d.flow_id) refl)
      | inr keep ↦ rw (e, keep) (find_flow-Reordered kzalloc (s.flows d.flow_id) refl byte sane)
    ]
  ]
