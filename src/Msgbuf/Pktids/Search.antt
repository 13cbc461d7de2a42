-- ===== src/Msgbuf/Pktids/Search.antt =====
-- msgbuf.c: the search for a free packet id.
use native.Mathlib.Decide.{ℕ_discrete}
use omdrop_awdl.Prelude.{
  ℕ, zero, suc, ◌+◌, ◌^◌, ◌≤◌, ◌<◌, ◌≡◌, ◌≢◌, true, false, none, some, ltb, arith, Bool-cases, inl,
  inr, ◌⊎◌,
}
use omdrop_awdl.Msgbuf.Pktids.{Pktid, next_idx, find_free}

next_idx-cases :
    (array_size idx : ℕ)
    → idx < array_size
    → array_size < 2 ^ 32
    → ((idx + 1 < array_size) × (next_idx array_size idx ≡ idx + 1))
      ⊎ ((idx + 1 ≡ array_size) × (next_idx array_size idx ≡ 0))
next_idx-cases array_size idx h h' = elim (ℕ_discrete (idx + 1) array_size) [
  | yes e ↦ inr (e, ground arith)
  | no n ↦ inl (omega arith, ground arith)
]

next_idx_in :
    (array_size idx : ℕ)
    → idx < array_size
    → array_size < 2 ^ 32
    → next_idx array_size idx < array_size
next_idx_in array_size idx h h' = elim (next_idx-cases array_size idx h h') [
  | inl (b, e) ↦ rw e b
  | inr (b, e) ↦ rw e (omega arith)
]

pub find_free-some :
    (array : ℕ → Pktid) (array_size idx rounds i : ℕ)
    → idx < array_size
    → array_size < 2 ^ 32
    → find_free array array_size idx rounds ≡ some i
    → (i < array_size) × ((array i).allocated ≡ false)
unfolding find_free
find_free-some array array_size idx zero i h h' e = cc
find_free-some array array_size idx (suc rounds) i h h' e =
    let first : ℕ = next_idx array_size idx in
    let first_in = next_idx_in array_size idx h h' in
    elim (Bool-cases (array first).allocated) [
      | inl busy ↦ find_free-some array array_size first rounds i first_in h' (rw busy at e)
      | inr idle ↦ let same : first ≡ i = ground arith in (rw (← same) first_in, rw (← same) idle)
    ]

closer :
    (array_size idx first rounds j : ℕ)
    → ((idx + 1 < array_size) × (first ≡ idx + 1)) ⊎ ((idx + 1 ≡ array_size) × (first ≡ 0))
    → j < array_size
    → j ≢ first
    → ((idx < j) × (j ≤ idx + suc rounds)) ⊎ (j + array_size ≤ idx + suc rounds)
    → ((first < j) × (j ≤ first + rounds)) ⊎ (j + array_size ≤ first + rounds)
closer array_size idx first rounds j (inl (h, e)) b n (inl (l, r)) = inl (omega arith, omega arith)
closer array_size idx first rounds j (inl (h, e)) b n (inr r) = inr (omega arith)
closer array_size idx first rounds j (inr (h, e)) b n (inl (l, r)) = absurd (omega arith)
closer array_size idx first rounds j (inr (h, e)) b n (inr r) = inl (omega arith, omega arith)

-- Entries that `rounds` rounds from `idx` pass: up to the end, and from the start on.
passed :
    (array : ℕ → Pktid) (array_size idx rounds j : ℕ)
    → idx < array_size
    → array_size < 2 ^ 32
    → find_free array array_size idx rounds ≡ none
    → j < array_size
    → ((idx < j) × (j ≤ idx + rounds)) ⊎ (j + array_size ≤ idx + rounds)
    → (array j).allocated ≡ true
unfolding find_free
passed array array_size idx zero j h h' e b w =
    absurd (elim w [ inl (l, r) ↦ omega arith | inr r ↦ omega arith ])
passed array array_size idx (suc rounds) j h h' e b w =
    let first : ℕ = next_idx array_size idx in
    let first_in = next_idx_in array_size idx h h' in
    elim (Bool-cases (array first).allocated) [
      | inr idle ↦ absurd (ground arith)
      | inl busy ↦ elim (ℕ_discrete j first) [
        | yes same ↦ rw same busy
        | no n ↦
            passed array array_size first rounds j first_in h' (rw busy at e) b
              (closer array_size idx first rounds j (next_idx-cases array_size idx h h') b n w)
      ]
    ]

pub find_free-none :
    (array : ℕ → Pktid) (array_size idx : ℕ)
    → idx < array_size
    → array_size < 2 ^ 32
    → find_free array array_size idx array_size ≡ none
    → (j : ℕ) → j < array_size
    → (array j).allocated ≡ true
find_free-none array array_size idx h h' e j b =
    passed array array_size idx array_size j h h' e b (elim (Bool-cases (ltb idx j)) [
      | inl l ↦ inl (ground arith, omega arith)
      | inr l ↦ inr (ground arith)
    ])
