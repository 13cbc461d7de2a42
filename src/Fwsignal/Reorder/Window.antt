-- ===== src/Fwsignal/Reorder/Window.antt =====
-- fwsignal.c: the loop of brcmf_rxreorder_get_skb_list over a window of the slots.
use mathlib.Core.List.{append-nil, append_assoc}
use omdrop_awdl.Prelude.{
  ℕ, zero, suc, ◌+◌, ◌≤◌, ◌<◌, ◌≡◌, ◌≢◌, refl, ◌∙◌, ap, ap₂, sym, true, false, ◌&&◌, Option, none,
  some, List, [], ◌++◌, ◌==◌, ltb, leb, update, arith, if◌then◌else◌,
}
use omdrop_awdl.Fwsignal.Reorder.{ReorderInfo, slot_at, slot_pkts, next_idx, collect}

abbrev pub Slots : Type 0
Slots = ℕ → Option ℕ

-- The packets of `count` slots from `i` on, in order.
abbrev pub range : Slots → ℕ → ℕ → List ℕ
range pktslots i zero = []
range pktslots i (suc count) = slot_pkts (pktslots i) ++ range pktslots (i + 1) count

-- All slots but those from `a` to below `b`.
abbrev pub clear : Slots → ℕ → ℕ → Slots
clear pktslots a b i = if leb a i && ltb i b then none else pktslots i

pub range-cong :
    (f g : Slots) (i n : ℕ) → ((j : ℕ) → i ≤ j → j < i + n → f j ≡ g j) → range f i n ≡ range g i n
range-cong f g i zero same = refl
range-cong f g i (suc n) same =
    ap₂ (λ o l. slot_pkts o ++ l) (same i (omega arith) (omega arith))
      (range-cong f g (i + 1) n (λ j a b. same j (omega arith) (omega arith)))

-- Every slot that an index may name was allocated.
pub record IsSized (rfi : ReorderInfo) : Type 0 where
  pub sized : rfi.slots ≡ rfi.max_idx + 1
  pub byte : rfi.max_idx < 256

module _ (rounds : ℕ) (rfi : ReorderInfo) (start end : ℕ) (v : IsSized rfi)
    (start_in : start ≤ rfi.max_idx) where
  abbrev emptied : ReorderInfo
  emptied = record rfi { pktslots = update rfi.pktslots start none }

  collect-last :
      next_idx rfi.max_idx start ≡ end
      → collect (suc rounds) rfi start end ≡ some (slot_pkts (rfi.pktslots start) ++ [], emptied)
  unfolding collect
  collect-last e =
      let there : slot_at rfi start ≡ some (rfi.pktslots start) = ground (arith, v.sized) in
      let same : (next_idx rfi.max_idx start == end) ≡ true = ground arith in
      rw there (rw same refl)

  collect-next :
      (next : ℕ) (pkts : List ℕ) (rfi2 : ReorderInfo)
      → next_idx rfi.max_idx start ≡ next
      → next ≢ end
      → collect rounds emptied next end ≡ some (pkts, rfi2)
      → collect (suc rounds) rfi start end ≡ some (slot_pkts (rfi.pktslots start) ++ pkts, rfi2)
  unfolding collect
  collect-next next pkts rfi2 n ne e =
      let there : slot_at rfi start ≡ some (rfi.pktslots start) = ground (arith, v.sized) in
      let same : (next == end) ≡ false = ground arith in rw there (rw n (rw same (rw e refl)))

-- What the loop leaves of the flow.
abbrev pub with_slots : ReorderInfo → Slots → ReorderInfo
with_slots rfi pktslots = record rfi { pktslots = pktslots }

-- From `start` up to a greater `end`.
pub straight :
    (count rounds : ℕ) (rfi : ReorderInfo) (start end : ℕ)
    → IsSized rfi
    → end ≡ start + suc count
    → end ≤ rfi.max_idx
    → count < rounds
    → (left : Slots) × (collect rounds rfi start end
        ≡ some (range rfi.pktslots start (suc count), with_slots rfi left))
      × ((i : ℕ) → left i ≡ clear rfi.pktslots start end i)
straight count zero rfi start end v e end_in lt = absurd (omega arith)
straight zero (suc rounds) rfi start end v e end_in lt = (
  update rfi.pktslots start none,
  collect-last rounds rfi start end v (omega arith) (ground (arith, v.byte)),
  λ i. ground arith,
)
straight (suc count) (suc rounds) rfi start end v e end_in lt =
    let f = update rfi.pktslots start none in
    let (left, rest, cleared) =
      straight count rounds (with_slots rfi f) (start + 1) end
        (record { sized = v.sized; byte = v.byte }) (omega arith) end_in (omega arith) in
    let same = range-cong f rfi.pktslots (start + 1) (suc count) (λ j a b. ground arith) in
    (
      left,
      collect-next rounds rfi start end v (omega arith) (start + 1)
          (range rfi.pktslots (start + 1) (suc count)) (with_slots rfi left)
          (ground (arith, v.byte)) (omega arith)
          (rest ∙ ap (λ l. some (l, with_slots rfi left)) same),
      λ i. cleared i ∙ ground arith,
    )

-- From `start` up to the last slot, and from slot 0 up to an `end` that is not greater.
pub over :
    (count rounds : ℕ) (rfi : ReorderInfo) (start end : ℕ)
    → IsSized rfi
    → start + count ≡ rfi.max_idx
    → end ≤ start
    → count + end < rounds
    → (left : Slots) × (collect rounds rfi start end
        ≡ some
            (range rfi.pktslots start (suc count) ++ range rfi.pktslots 0 end, with_slots rfi left))
      × ((i : ℕ) → left i ≡ clear (clear rfi.pktslots start (rfi.max_idx + 1)) 0 end i)
over count zero rfi start end v e le lt = absurd (omega arith)
over zero (suc rounds) rfi start zero v e le lt = (
  update rfi.pktslots start none,
  collect-last rounds rfi start 0 v (omega arith) (ground (arith, v.byte))
      ∙ ap (λ l. some (l, with_slots rfi (update rfi.pktslots start none)))
          (sym (append-nil (slot_pkts (rfi.pktslots start) ++ []))),
  λ i. ground arith,
)
over zero (suc rounds) rfi start (suc end) v e le lt =
    let f = update rfi.pktslots start none in
    let (left, rest, cleared) =
      straight end rounds (with_slots rfi f) 0 (suc end) (record { sized = v.sized; byte = v.byte })
        (omega arith) (omega arith) (omega arith) in
    let same = range-cong f rfi.pktslots 0 (suc end) (λ j a b. ground arith) in
    (
      left,
      collect-next rounds rfi start (suc end) v (omega arith) 0 (range rfi.pktslots 0 (suc end))
            (with_slots rfi left) (ground (arith, v.byte)) (omega arith)
            (rest ∙ ap (λ l. some (l, with_slots rfi left)) same)
          ∙ ap (λ l. some (l, with_slots rfi left))
              (sym (
                append_assoc (slot_pkts (rfi.pktslots start)) [] (range rfi.pktslots 0 (suc end)))),
      λ i. cleared i ∙ ground arith,
    )
over (suc count) (suc rounds) rfi start end v e le lt =
    let f = update rfi.pktslots start none in
    let (left, rest, cleared) =
      over count rounds (with_slots rfi f) (start + 1) end
        (record { sized = v.sized; byte = v.byte }) (omega arith) (omega arith) (omega arith) in
    let upper = range-cong f rfi.pktslots (start + 1) (suc count) (λ j a b. ground arith) in
    let lower = range-cong f rfi.pktslots 0 end (λ j a b. ground arith) in
    let both = ap₂ (λ l m. l ++ m) upper lower in
    (
      left,
      collect-next rounds rfi start end v (omega arith) (start + 1)
            (range rfi.pktslots (start + 1) (suc count) ++ range rfi.pktslots 0 end)
            (with_slots rfi left) (ground (arith, v.byte)) (omega arith)
            (rest ∙ ap (λ l. some (l, with_slots rfi left)) both)
          ∙ ap (λ l. some (l, with_slots rfi left))
              (sym (
                append_assoc (slot_pkts (rfi.pktslots start))
                  (range rfi.pktslots (start + 1) (suc count)) (range rfi.pktslots 0 end))),
      λ i. cleared i ∙ ground arith,
    )
