-- ===== src/Fwsignal/Reorder/Held.antt =====
-- fwsignal.c: the packets that a flow holds, as get_skb_list takes them and a store adds them.
use mathlib.Core.List.{append_assoc}
use omdrop_awdl.Prelude.{
  ℕ, zero, suc, ◌+◌, ◌-◌, ◌≤◌, ◌<◌, ◌≡◌, ◌≢◌, refl, ◌∙◌, ap, ap₂, sym, Bool, false, ◌&&◌, ◌||◌,
  none, some, List, [], ◌∷◌, ◌++◌, ◌==◌, ltb, leb, length, update, arith, Bool-cases, inl, inr,
  if◌then◌else◌, sub8, u8,
}
use omdrop_awdl.Fwsignal.Reorder.{ReorderInfo, slot_pkts, collect, get_skb_list}
use omdrop_awdl.Fwsignal.Reorder.Window.{
  Slots, range, range-cong, IsSized, with_slots, straight, over,
}

-- All that a flow holds, in the order of the slots.
abbrev pub held : ReorderInfo → List ℕ
held rfi = range rfi.pktslots 0 (rfi.max_idx + 1)

-- The packets from slot `start` up to slot `end`, round the end of the slots if need be; all of
-- them if the two are the same.
abbrev pub window : ReorderInfo → ℕ → ℕ → List ℕ
window rfi start end =
    if ltb start end
    then range rfi.pktslots start (end - start)
    else range rfi.pktslots start (rfi.max_idx + 1 - start) ++ range rfi.pktslots 0 end

-- The slots of the window.
abbrev pub in_window : ℕ → ℕ → ℕ → Bool
in_window start end i = if ltb start end then leb start i && ltb i end else leb start i || ltb i end

got_lem :
    (rfi : ReorderInfo) (start end : ℕ) (pkts pkts' : List ℕ) (left : Slots)
    → rfi.pend_pkts ≢ 0
    → collect 256 rfi start end ≡ some (pkts, with_slots rfi left)
    → pkts ≡ pkts'
    → get_skb_list rfi start end
      ≡ some (
        pkts',
        record rfi { pktslots = left; pend_pkts = sub8 rfi.pend_pkts (u8 (length pkts')) },
      )
unfolding get_skb_list
got_lem rfi start end pkts pkts' left pend e same =
    let counted : (rfi.pend_pkts == 0) ≡ false = ground arith in rw counted (rw e (rw same refl))

-- On a flow whose slots are all there and that counts a packet, with both indices in range,
-- get_skb_list ends and takes exactly the packets of the slots from the first index up to the
-- second, round the end of the slots if need be and all the way round if the two are the same, in
-- that order. It empties those slots, leaves the others, and takes the number of the packets off
-- the count.
pub get_skb_list-window :
    (rfi : ReorderInfo) (start end : ℕ)
    → IsSized rfi
    → start ≤ rfi.max_idx
    → end ≤ rfi.max_idx
    → rfi.pend_pkts ≢ 0
    → (left : Slots) × (get_skb_list rfi start end
        ≡ some (
          window rfi start end,
          record rfi {
            pktslots = left;
            pend_pkts = sub8 rfi.pend_pkts (u8 (length (window rfi start end)));
          },
        ))
      × ((i : ℕ)
          → i ≤ rfi.max_idx
          → left i ≡ (if in_window start end i then none else rfi.pktslots i))
get_skb_list-window rfi start end v start_in end_in pend = elim (Bool-cases (ltb start end)) [
  | inl lt ↦
      let whole : suc (end - start - 1) ≡ end - start = ground arith in
      let (left, e, cleared) =
        straight (end - start - 1) 256 rfi start end v (ground arith) end_in
          (ground (arith, v.byte)) in
      (
        left,
        got_lem rfi start end _ (window rfi start end) left pend e
            (rw lt (ap (range rfi.pktslots start) whole)),
        λ i b. cleared i ∙ rw lt refl,
      )
  | inr ge ↦
      let whole : suc (rfi.max_idx - start) ≡ rfi.max_idx + 1 - start = omega arith in
      let (left, e, cleared) =
        over (rfi.max_idx - start) 256 rfi start end v (omega arith) (ground arith)
          (ground (arith, v.byte)) in
      (
        left,
        got_lem rfi start end _ (window rfi start end) left pend e
            (rw ge (ap (λ n. range rfi.pktslots start n ++ range rfi.pktslots 0 end) whole)),
        λ i b. cleared i ∙ ground arith,
      )
]

pub range-split :
    (f : Slots) (i m n k j : ℕ) → k ≡ m + n → j ≡ i + m → range f i k ≡ range f i m ++ range f j n
range-split f i zero n k j e e' = ap₂ (λ a b. range f a b) (omega arith) (omega arith)
range-split f i (suc m) n zero j e e' = absurd (omega arith)
range-split f i (suc m) n (suc k) j e e' =
    ap (λ l. slot_pkts (f i) ++ l) (range-split f (i + 1) m n k j (omega arith) (omega arith))
    ∙ sym (append_assoc (slot_pkts (f i)) (range f (i + 1) m) (range f j n))

pub range-none :
    (f : Slots) (i n : ℕ) → ((j : ℕ) → i ≤ j → j < i + n → f j ≡ none) → range f i n ≡ []
range-none f i zero h = refl
range-none f i (suc n) h =
    ap₂ (λ o l. slot_pkts o ++ l) (h i (omega arith) (omega arith))
      (range-none f (i + 1) n (λ j a b. h j (omega arith) (omega arith)))

-- A measure that adds up over lists: their length, or how often a packet is in them.
module _ (measure : List ℕ → ℕ) (at_nil : measure [] ≡ 0)
    (at_append : (xs ys : List ℕ) → measure (xs ++ ys) ≡ measure xs + measure ys) where
  measure-split :
      (f : Slots) (i m n k j : ℕ)
      → k ≡ m + n
      → j ≡ i + m
      → measure (range f i k) ≡ measure (range f i m) + measure (range f j n)
  measure-split f i m n k j e e' =
      ap measure (range-split f i m n k j e e') ∙ at_append (range f i m) (range f j n)

  -- What is stored in a slot takes the place of what it held.
  pub measure-update :
      (f : Slots) (i n pkt : ℕ)
      → i < n
      → measure (range (update f i (some pkt)) 0 n) + measure (slot_pkts (f i))
        ≡ measure (range f 0 n) + measure (pkt ∷ [])
  measure-update f i n pkt lt =
      let g = update f i (some pkt) in
      let rest = n - i - 1 in
      let one : g i ≡ some pkt = ground arith in
      let below = ap measure (range-cong g f 0 i (λ j a b. ground arith)) in
      let above = ap measure (range-cong g f (i + 1) rest (λ j a b. ground arith)) in
      let f_low = measure-split f 0 i (suc rest) n i (omega arith) (omega arith) in
      let g_low = measure-split g 0 i (suc rest) n i (omega arith) (omega arith) in
      let f_here = at_append (slot_pkts (f i)) (range f (i + 1) rest) in
      let g_here =
        at_append (slot_pkts (g i)) (range g (i + 1) rest)
        ∙ ap (λ o. measure (slot_pkts o) + measure (range g (i + 1) rest)) one in
      omega (arith, below, above, f_low, g_low, f_here, g_here)

  -- The window and what is left of the flow are what it held.
  pub measure-window :
      (rfi : ReorderInfo) (start end : ℕ) (left : Slots)
      → start ≤ rfi.max_idx
      → end ≤ rfi.max_idx
      → ((i : ℕ)
          → i ≤ rfi.max_idx
          → left i ≡ (if in_window start end i then none else rfi.pktslots i))
      → measure (window rfi start end) + measure (range left 0 (rfi.max_idx + 1))
        ≡ measure (held rfi)
  measure-window rfi start end left start_in end_in cleared =
      let f = rfi.pktslots in
      let size = rfi.max_idx + 1 in
      elim (Bool-cases (ltb start end)) [
        | inl lt ↦
            let upper = size - end in
            let low = ap measure (range-cong left f 0 start (λ j a b. ground (arith, cleared j))) in
            let gone =
              ap measure (range-none left start (end - start) (λ j a b. ground (arith, cleared j)))
              ∙ at_nil in
            let high =
              ap measure (range-cong left f end upper (λ j a b. ground (arith, cleared j))) in
            let f1 =
              measure-split f 0 start (size - start) size start (omega arith) (omega arith) in
            let f2 =
              measure-split f start (end - start) upper (size - start) end (ground arith)
                (ground arith) in
            let l1 =
              measure-split left 0 start (size - start) size start (omega arith) (omega arith) in
            let l2 =
              measure-split left start (end - start) upper (size - start) end (ground arith)
                (ground arith) in
            rw lt (omega (arith, low, gone, high, f1, f2, l1, l2))
        | inr ge ↦
            let mid = start - end in
            let low =
              ap measure (range-none left 0 end (λ j a b. ground (arith, cleared j))) ∙ at_nil in
            let kept =
              ap measure (range-cong left f end mid (λ j a b. ground (arith, cleared j))) in
            let high =
              ap measure (range-none left start (size - start) (λ j a b. ground (arith, cleared j)))
              ∙ at_nil in
            let f1 = measure-split f 0 end (size - end) size end (omega arith) (omega arith) in
            let f2 =
              measure-split f end mid (size - start) (size - end) start (ground arith)
                (ground arith) in
            let l1 = measure-split left 0 end (size - end) size end (omega arith) (omega arith) in
            let l2 =
              measure-split left end mid (size - start) (size - end) start (ground arith)
                (ground arith) in
            let both = at_append (range f start (size - start)) (range f 0 end) in
            rw ge (omega (arith, low, kept, high, f1, f2, l1, l2, both))
      ]

  -- From a slot round to itself the window is all of the flow.
  pub measure-window_all :
      (rfi : ReorderInfo) (start : ℕ)
      → start ≤ rfi.max_idx
      → measure (window rfi start start) ≡ measure (held rfi)
  measure-window_all rfi start start_in =
      let f = rfi.pktslots in
      let size = rfi.max_idx + 1 in
      let same : ltb start start ≡ false = ground arith in
      let all = measure-split f 0 start (size - start) size start (omega arith) (omega arith) in
      let both = at_append (range f start (size - start)) (range f 0 start) in
      rw same (omega (arith, all, both))

  pub measure-slot :
      (f : Slots) (i n : ℕ) → i < n → measure (slot_pkts (f i)) ≤ measure (range f 0 n)
  measure-slot f i n lt =
      let rest = n - i - 1 in
      let low = measure-split f 0 i (suc rest) n i (omega arith) (omega arith) in
      let here = at_append (slot_pkts (f i)) (range f (i + 1) rest) in omega (arith, low, here)
