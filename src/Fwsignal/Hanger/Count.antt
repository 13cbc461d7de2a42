-- ===== src/Fwsignal/Hanger/Count.antt =====
-- fwsignal.c: the counters of the hanger, and the packets that wait in it.
use native.Mathlib.Decide.{ℕ_discrete}
use omdrop_awdl.Prelude.{
  ℕ, zero, suc, ◌+◌, ◌^◌, ◌≤◌, ◌<◌, ◌≡◌, refl, Bool, true, false, Option, none, some, leb, update,
  u32, arith, Bool-cases, inl, inr,
}
use omdrop_awdl.Fwsignal.Hanger.{
  maxitems, item_free, inuse, inuse_suppressed, ItemState, HangerItem, Hanger, is_free, hanger_init,
  found_slot, get_free_slot, pushpkt, poppkt, mark_suppressed,
}

abbrev pub used : ItemState → ℕ
used item_free = 0
used _ = 1

-- The slots below `n` that hold a packet.
unfoldable pub waiting : (ℕ → HangerItem) → ℕ → ℕ
waiting items zero = 0
waiting items (suc n) = waiting items n + used (items n).state

-- The counters are words, and wrap around.
pub record IsCounted (h : Hanger) : Type 0 where
  pub balance : h.pushed ≡ u32 (h.popped + waiting h.items maxitems)
  pub small : h.popped < 2 ^ 32

waiting-outside :
    (items : ℕ → HangerItem) (i n : ℕ) (e : HangerItem)
    → n ≤ i
    → waiting (update items i e) n ≡ waiting items n
unfolding waiting
waiting-outside items i zero e h = refl
waiting-outside items i (suc n) e h =
    let rest = waiting-outside items i n e (omega arith) in ground arith

waiting-update :
    (items : ℕ → HangerItem) (i n : ℕ) (e : HangerItem)
    → i < n
    → waiting (update items i e) n + used (items i).state ≡ waiting items n + used e.state
unfolding waiting
waiting-update items i zero e h = elim h [ ]
waiting-update items i (suc n) e h = elim (ℕ_discrete i n) [
  | yes same ↦ let rest = waiting-outside items i n e (omega arith) in ground arith
  | no ne ↦ let rest = waiting-update items i n e (omega arith) in ground arith
]

used-free : (st : ItemState) → is_free st ≡ true → used st ≡ 0
used-free item_free h = refl
used-free st h = cc

used-busy : (st : ItemState) → is_free st ≡ false → used st ≡ 1
used-busy item_free h = cc
used-busy st h = refl

pushpkt-IsCounted :
    (h : Hanger) (pkt slot_id : ℕ) → IsCounted h → IsCounted (pushpkt h pkt slot_id).1
unfolding pushpkt
pushpkt-IsCounted h pkt slot_id v = elim (Bool-cases (leb maxitems slot_id)) [
  | inl e ↦ rw e v
  | inr e ↦ rw e (elim (Bool-cases (is_free (h.items slot_id).state)) [
    | inr busy ↦ rw busy (record { balance = v.balance; small = v.small })
    | inl idle ↦
        let change =
          waiting-update h.items slot_id maxitems (record { state = inuse; pkt = pkt })
            (ground arith) in
        let none_there = used-free (h.items slot_id).state idle in
        rw idle (record { balance = omega (arith, v.balance); small = v.small })
  ])
]

poppkt-IsCounted :
    (h : Hanger) (slot_id : ℕ) (remove : Bool) → IsCounted h → IsCounted (poppkt h slot_id remove).1
unfolding poppkt
poppkt-IsCounted h slot_id remove v = elim (Bool-cases (leb maxitems slot_id)) [
  | inl e ↦ rw e v
  | inr e ↦ rw e (elim (Bool-cases (is_free (h.items slot_id).state)) [
    | inl idle ↦ rw idle (record { balance = v.balance; small = v.small })
    | inr busy ↦ rw busy (elim (Bool-cases remove) [
      | inr keeps ↦ rw keeps v
      | inl gone ↦
          let change =
            waiting-update h.items slot_id maxitems (record { state = item_free; pkt = 0 })
              (ground arith) in
          let one_there = used-busy (h.items slot_id).state busy in
          rw gone (record { balance = omega (arith, v.balance, v.small); small = omega arith })
    ])
  ])
]

mark_suppressed-IsCounted :
    (h : Hanger) (slot_id : ℕ) → IsCounted h → IsCounted (mark_suppressed h slot_id).1
unfolding mark_suppressed
mark_suppressed-IsCounted h slot_id v = elim (Bool-cases (leb maxitems slot_id)) [
  | inl e ↦ rw e v
  | inr e ↦ rw e (elim (Bool-cases (is_free (h.items slot_id).state)) [
    | inl idle ↦ rw idle v
    | inr busy ↦
        let change =
          waiting-update h.items slot_id maxitems
            (record (h.items slot_id) { state = inuse_suppressed }) (ground arith) in
        let one_there = used-busy (h.items slot_id).state busy in
        rw busy (record { balance = omega (arith, v.balance); small = v.small })
  ])
]

found_slot-IsCounted : (h : Hanger) (o : Option ℕ) → IsCounted h → IsCounted (found_slot h o).1
unfolding found_slot
found_slot-IsCounted h none v = record { balance = v.balance; small = v.small }
found_slot-IsCounted h (some i) v = record { balance = v.balance; small = v.small }

pub data Step : Hanger → Hanger → Type 0 where
  finds : {h : Hanger} → Step h (get_free_slot h).1
  pushes : {h : Hanger} (pkt slot_id : ℕ) → Step h (pushpkt h pkt slot_id).1
  pops : {h : Hanger} (slot_id : ℕ) (remove : Bool) → Step h (poppkt h slot_id remove).1
  suppresses : {h : Hanger} (slot_id : ℕ) → Step h (mark_suppressed h slot_id).1

pub data Reach (start : Hanger) : Hanger → Type 0 where
  here : Reach start start
  step : {h h' : Hanger} → Reach start h → Step h h' → Reach start h'

Step-IsCounted : {h h' : Hanger} → Step h h' → IsCounted h → IsCounted h'
Step-IsCounted finds v = unfold get_free_slot in found_slot-IsCounted _ _ v
Step-IsCounted (pushes pkt slot_id) v = pushpkt-IsCounted _ pkt slot_id v
Step-IsCounted (pops slot_id remove) v = poppkt-IsCounted _ slot_id remove v
Step-IsCounted (suppresses slot_id) v = mark_suppressed-IsCounted _ slot_id v

waiting_none : (n : ℕ) (e : HangerItem) → used e.state ≡ 0 → waiting (λ i. e) n ≡ 0
unfolding waiting
waiting_none zero e h = refl
waiting_none (suc n) e h = let rest = waiting_none n e h in omega arith

hanger_init-IsCounted : IsCounted hanger_init
unfolding hanger_init
hanger_init-IsCounted =
    let nobody = waiting_none maxitems (record { state = item_free; pkt = 0 }) refl in
    record { balance = omega arith; small = omega arith }

reached-IsCounted : (h : Hanger) → Reach hanger_init h → IsCounted h
reached-IsCounted h here = hanger_init-IsCounted
reached-IsCounted h (step r s) = Step-IsCounted s (reached-IsCounted _ r)

-- After init and any pushes, pops, searches for a slot and suppressions, with any arguments and
-- failures, the packets pushed are, as a 32-bit word, those popped and those that wait in a slot.
pub Reach-IsCounted :
    (h : Hanger) → Reach hanger_init h → h.pushed ≡ u32 (h.popped + waiting h.items maxitems)
Reach-IsCounted h r = (reached-IsCounted h r).balance
