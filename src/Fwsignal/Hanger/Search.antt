-- ===== src/Fwsignal/Hanger/Search.antt =====
-- fwsignal.c: the search for a free slot of the hanger, and the use of the slot.
use native.Mathlib.Decide.{ℕ_discrete}
use omdrop_awdl.Prelude.{
  ℕ, zero, suc, ◌+◌, ◌-◌, ◌%◌, ◌≤◌, ◌<◌, ◌≡◌, ◌≢◌, refl, true, false, Option, none, some, ◌==◌, leb,
  ltb, u32, if◌then◌else◌, arith, Bool-cases, inl, inr, ◌⊎◌,
}
use omdrop_awdl.Fwsignal.Hanger.{
  maxitems, HangerItem, Hanger, is_free, hung, einval, next_slot, search, found_slot, get_free_slot,
  pushpkt, poppkt,
}

-- The slots that the loop still has to pass, going round to slot_pos.
abbrev pub IsAhead : ℕ → ℕ → ℕ → Type 0
IsAhead i slot_pos j =
    ((i ≤ j) × (j < slot_pos)) ⊎ ((slot_pos < i) × (i ≤ j)) ⊎ ((slot_pos < i) × (j < slot_pos))

-- How many they are.
abbrev distance : ℕ → ℕ → ℕ
distance i slot_pos = if leb i slot_pos then slot_pos - i else slot_pos + maxitems - i

next_slot-cases :
    (i : ℕ)
    → i < maxitems
    → ((i + 1 < maxitems) × (next_slot i ≡ i + 1)) ⊎ ((i + 1 ≡ maxitems) × (next_slot i ≡ 0))
next_slot-cases i h = elim (ℕ_discrete (i + 1) maxitems) [
  | yes e ↦ inr (e, ground arith)
  | no n ↦ inl (omega arith, ground arith)
]

next_slot_in : (i : ℕ) → i < maxitems → next_slot i < maxitems
next_slot_in i h = elim (next_slot-cases i h) [
  | inl (b, e) ↦ rw e b
  | inr (b, e) ↦ rw e (omega arith)
]

IsAhead-next :
    (i i' slot_pos j : ℕ)
    → ((i + 1 < maxitems) × (i' ≡ i + 1)) ⊎ ((i + 1 ≡ maxitems) × (i' ≡ 0))
    → slot_pos < maxitems
    → i ≢ slot_pos
    → j < maxitems
    → j ≢ i
    → IsAhead i slot_pos j
    → IsAhead i' slot_pos j
IsAhead-next i i' slot_pos j (inl (b, e)) h n jb jn (inl (l, r)) = inl (omega arith, r)
IsAhead-next i i' slot_pos j (inl (b, e)) h n jb jn (inr (inl (l, r))) =
    inr (inl (omega arith, omega arith))
IsAhead-next i i' slot_pos j (inl (b, e)) h n jb jn (inr (inr (l, r))) = inr (inr (omega arith, r))
IsAhead-next i i' slot_pos j (inr (b, e)) h n jb jn (inl (l, r)) = absurd (omega arith)
IsAhead-next i i' slot_pos j (inr (b, e)) h n jb jn (inr (inl (l, r))) = absurd (omega arith)
IsAhead-next i i' slot_pos j (inr (b, e)) h n jb jn (inr (inr (l, r))) = inl (omega arith, r)

closer :
    (i i' slot_pos fuel : ℕ)
    → ((i + 1 < maxitems) × (i' ≡ i + 1)) ⊎ ((i + 1 ≡ maxitems) × (i' ≡ 0))
    → slot_pos < maxitems
    → i ≢ slot_pos
    → distance i slot_pos < suc fuel
    → distance i' slot_pos < fuel
closer i i' slot_pos fuel (inl (b, e)) h n d = ground arith
closer i i' slot_pos fuel (inr (b, e)) h n d = ground arith

differs : (i slot_pos : ℕ) → i ≢ slot_pos → (i == slot_pos) ≡ false
differs i slot_pos n = ground arith

search-none :
    (items : ℕ → HangerItem) (slot_pos i fuel j : ℕ)
    → slot_pos < maxitems
    → i < maxitems
    → distance i slot_pos < fuel
    → search items slot_pos i fuel ≡ none
    → j < maxitems
    → IsAhead i slot_pos j
    → is_free (items j).state ≡ false
unfolding search
search-none items slot_pos i zero j h b d e jb a = absurd (omega arith)
search-none items slot_pos i (suc fuel) j h b d e jb a = elim (ℕ_discrete i slot_pos) [
  | yes same ↦ absurd (elim a [
    | inl (l, r) ↦ omega arith
    | inr (inl (l, r)) ↦ omega arith
    | inr (inr (l, r)) ↦ omega arith
  ])
  | no n ↦ elim (Bool-cases (is_free (items i).state)) [
    | inl idle ↦ absurd (ground arith)
    | inr busy ↦ elim (ℕ_discrete j i) [
      | yes same ↦ rw same busy
      | no jn ↦
          search-none items slot_pos (next_slot i) fuel j h (next_slot_in i b)
            (closer i (next_slot i) slot_pos fuel (next_slot-cases i b) h n d)
            (rw (differs i slot_pos n, busy) at e) jb
            (IsAhead-next i (next_slot i) slot_pos j (next_slot-cases i b) h n jb jn a)
    ]
  ]
]

search-some :
    (items : ℕ → HangerItem) (slot_pos i fuel j : ℕ)
    → i < maxitems
    → search items slot_pos i fuel ≡ some j
    → (j < maxitems) × (is_free (items j).state ≡ true)
unfolding search
search-some items slot_pos i zero j b e = cc
search-some items slot_pos i (suc fuel) j b e = elim (ℕ_discrete i slot_pos) [
  | yes same ↦ absurd (ground arith)
  | no n ↦ elim (Bool-cases (is_free (items i).state)) [
    | inl idle ↦ let here : i ≡ j = ground arith in (rw (← here) b, rw (← here) idle)
    | inr busy ↦
        search-some items slot_pos (next_slot i) fuel j (next_slot_in i b)
          (rw (differs i slot_pos n, busy) at e)
  ]
]

not_less : (j slot_pos : ℕ) → ltb j slot_pos ≡ false → slot_pos ≤ j
not_less j slot_pos h = ground arith

start_distance :
    (slot_pos : ℕ)
    → slot_pos < maxitems
    → distance (u32 (slot_pos + 1) % maxitems) slot_pos < maxitems
start_distance slot_pos b = elim (ℕ_discrete (slot_pos + 1) maxitems) [
  | yes e ↦ let first : u32 (slot_pos + 1) % maxitems ≡ 0 = omega arith in ground arith
  | no n ↦ let first : u32 (slot_pos + 1) % maxitems ≡ slot_pos + 1 = omega arith in ground arith
]

start-IsAhead :
    (slot_pos j : ℕ)
    → slot_pos < maxitems
    → j < maxitems
    → j ≢ slot_pos
    → IsAhead (u32 (slot_pos + 1) % maxitems) slot_pos j
start-IsAhead slot_pos j b jb n = elim (ℕ_discrete (slot_pos + 1) maxitems) [
  | yes e ↦ inl (omega arith, omega arith)
  | no ne ↦ elim (Bool-cases (ltb j slot_pos)) [
    | inl l ↦ inr (inr (omega arith, ground arith))
    | inr l ↦ inr (inl (omega arith, let far = not_less j slot_pos l in omega arith))
  ]
]

-- What get_free_slot returns.
pub data IsSlot (h : Hanger) (pkt : ℕ) : ℕ × Hanger → Type 0 where
  occupied :
      (h' : Hanger)
      → h'.items ≡ h.items
      → ((j : ℕ) → j < maxitems → j ≢ h.slot_pos → is_free (h.items j).state ≡ false)
      → IsSlot h pkt (maxitems, h')
  slot :
      (i : ℕ) (h' : Hanger)
      → i < maxitems
      → h'.items ≡ h.items
      → (pushpkt h' pkt i).0 ≡ hung
      → (poppkt (pushpkt h' pkt i).1 i true).0 ≡ (hung, some pkt)
      → (poppkt (poppkt (pushpkt h' pkt i).1 i true).1 i true).0 ≡ (einval, none)
      → IsSlot h pkt (i, h')

pop-push :
    (h : Hanger) (pkt i : ℕ)
    → i < maxitems
    → is_free (h.items i).state ≡ true
    → ((pushpkt h pkt i).0 ≡ hung)
      × ((poppkt (pushpkt h pkt i).1 i true).0 ≡ (hung, some pkt))
      × ((poppkt (poppkt (pushpkt h pkt i).1 i true).1 i true).0 ≡ (einval, none))
unfolding pushpkt poppkt
pop-push h pkt i b idle = (ground arith, ground arith, ground arith)

found_slot-IsSlot :
    (h : Hanger) (pkt : ℕ) (o : Option ℕ)
    → h.slot_pos < maxitems
    → search h.items h.slot_pos (u32 (h.slot_pos + 1) % maxitems) maxitems ≡ o
    → IsSlot h pkt (found_slot h o)
unfolding found_slot
found_slot-IsSlot h pkt none b e = occupied _ refl λ j jb n.
    search-none h.items h.slot_pos _ maxitems j b (omega arith) (start_distance h.slot_pos b) e jb
      (start-IsAhead h.slot_pos j b jb n)
found_slot-IsSlot h pkt (some i) b e =
    let (i_in, idle) = search-some h.items h.slot_pos _ maxitems i (omega arith) e in
    let (pushes, pops, once) = pop-push (record h { slot_pos = i }) pkt i i_in idle in
    slot i _ i_in refl pushes pops once

-- On a hanger whose last slot is in range, get_free_slot returns a slot that takes a packet, and
-- the packet can be popped once; or it returns BRCMF_FWS_HANGER_MAXITEMS, only if every slot but
-- the last one is in use.
pub get_free_slot-IsSlot :
    (h : Hanger) (pkt : ℕ) → h.slot_pos < maxitems → IsSlot h pkt (get_free_slot h)
unfolding get_free_slot
get_free_slot-IsSlot h pkt b = found_slot-IsSlot h pkt _ b refl
