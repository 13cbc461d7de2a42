-- ===== src/Commonring/Space.antt =====
-- How many slots lie between two positions of a ring, and what the free space that commonring.c
-- computes is in these terms.
use omdrop_awdl.Prelude.{
  ℕ, ◌+◌, ◌-◌, ◌*◌, ◌^◌, ◌≤◌, ◌<◌, ◌≡◌, zero, suc, refl, inl, inr, true, ltb, some, leb, arith,
  Bool, true, false, not, ◌/◌, if_keeps, if◌then◌else◌, Bool-cases, ltb→lt,
}
use omdrop_awdl.Commonring.{
  Ring, Commonring, available, invoke, claim_one, claim_many, reserve_round, available_round,
  write_cancel, reserve_for_write_multiple,
}

-- The steps from position `a` forwards to position `b` on a ring of `depth` slots.
abbrev pub gap : ℕ → ℕ → ℕ → ℕ
gap depth a b = if leb a b then b - a else depth - a + b

-- `k` slots on from position `a`.
abbrev pub advance : ℕ → ℕ → ℕ → ℕ
advance depth a k = if ltb (a + k) depth then a + k else a + k - depth

-- The slots that the producer believes to be unread.
abbrev pub used : {C : Type 0} → Ring C → ℕ
used r = gap r.depth r.r_ptr r.w_ptr

-- Both positions lie on a ring that a `u16` can index.
pub record InBounds {C : Type 0} (r : Ring C) : Type 0 where
  pub depth_fits : r.depth < 2 ^ 16
  pub r_in : r.r_ptr < r.depth
  pub w_in : r.w_ptr < r.depth

module _ {C : Type 0} where
  pub available-used : (r : Ring C) → InBounds r → available r + used r ≡ r.depth
  unfolding available
  available-used r v = ground arith

  -- `w_ptr` moves on by one slot, and one slot at least stays free.
  pub claim_one_lem :
      (r : Ring C)
      → InBounds r
      → 1 < available r
      → ((claim_one r).1 ≡ record r { w_ptr = advance r.depth r.w_ptr 1 }) × (used r + 1 < r.depth)
  unfolding claim_one
  claim_one_lem r v h = ground (arith, available-used r v)

  -- `w_ptr` moves on by the number of slots that is returned: some, no more than were asked for,
  -- none past the end of the buffer, and one slot at least stays free.
  pub claim_many_lem :
      (n : ℕ) (r : Ring C)
      → InBounds r
      → 1 < available r
      → let k = (claim_many n r).0.1 in
        ((claim_many n r).1 ≡ record r { w_ptr = advance r.depth r.w_ptr k })
        × (used r + k < r.depth)
        × (k ≤ n)
        × (0 < n → 0 < k)
        × (r.w_ptr + k ≤ r.depth)
  unfolding claim_many
  claim_many_lem n r v h = (
    ground (arith, available-used r v),
    ground (arith, available-used r v),
    ground (arith, available-used r v),
    ground (arith, available-used r v),
    ground (arith, available-used r v),
  )

  pub claim_many-address :
      (n : ℕ) (r : Ring C) → (claim_many n r).0.0 ≡ r.buf_addr + r.w_ptr * r.item_len
  unfolding claim_many
  claim_many-address n r = refl

  -- Handing back some of the slots that were claimed in one piece leaves the others claimed.
  pub write_cancel_lem :
      (r : Ring C) (s : Commonring C) (k j : ℕ)
      → InBounds r
      → r.w_ptr + k ≤ r.depth
      → s.ring ≡ record r { w_ptr = advance r.depth r.w_ptr k }
      → 0 < j
      → j ≤ k
      → (write_cancel s j).ring ≡ record r { w_ptr = advance r.depth r.w_ptr (k - j) }
  unfolding write_cancel
  write_cancel_lem r s k j v fits e pos le = rw e (ground arith)

-- The loop of a reservation: what each refresh and each claim keeps, the loop keeps.
module _ {ℓ} {C : Type 0} {A : Type 0} (P : Ring C → Type ℓ) (claim : Ring C → A × Ring C)
    (full : (r : Ring C) → P r → P (record r { was_full = true }))
    (claimed : (r : Ring C) → P r → 1 < available r → P (claim r).1) where
  pub reserve_round_keeps :
      (retry : ℕ) (s : Commonring C)
      → ((r : Ring C) → P r → P (invoke s.cr_update_rptr r))
      → P s.ring
      → P (reserve_round claim retry s).1.ring
  unfolding reserve_round
  reserve_round_keeps zero s fresh p = elim (Bool-cases (ltb 1 (available s.ring))) [
    | inl e ↦ rw e (claimed s.ring p (ltb→lt _ _ e))
    | inr e ↦ rw e (full s.ring p)
  ]
  reserve_round_keeps (suc retry) s fresh p = elim (Bool-cases (ltb 1 (available s.ring))) [
    | inl e ↦ rw e (claimed s.ring p (ltb→lt _ _ e))
    | inr e ↦ rw e (
        reserve_round_keeps retry
          (record { ring = invoke s.cr_update_rptr s.ring; calls = s.calls }) fresh
          (fresh s.ring p))
  ]

-- A reservation that succeeds has claimed on a ring with free space, which the refreshes so far
-- have kept good.
module _ {ℓ} {C : Type 0} {A : Type 0} (P : Ring C → Type ℓ) (claim : Ring C → A × Ring C) where
  pub reserve_round-some :
      (retry : ℕ) (s : Commonring C)
      → ((r : Ring C) → P r → P (invoke s.cr_update_rptr r))
      → P s.ring
      → (a : A) → (reserve_round claim retry s).0 ≡ some a
      → (r : Ring C) × P r
        × (1 < available r)
        × (claim r ≡ (a, (reserve_round claim retry s).1.ring))
  unfolding reserve_round
  reserve_round-some zero s fresh p a h = elim (Bool-cases (ltb 1 (available s.ring))) [
    | inl e ↦ (s.ring, p, ltb→lt _ _ e, ground arith)
    | inr e ↦ absurd (ground arith)
  ]
  reserve_round-some (suc retry) s fresh p a h = elim (Bool-cases (ltb 1 (available s.ring))) [
    | inl e ↦ (s.ring, p, ltb→lt _ _ e, ground arith)
    | inr e ↦ rw e (
        reserve_round-some retry (record { ring = invoke s.cr_update_rptr s.ring; calls = s.calls })
          fresh (fresh s.ring p) a (rw e at h))
  ]

-- The same of the reservation of several slots.
pub reserve_for_write_multiple-some {ℓ} :
    {C : Type 0} (P : Ring C → Type ℓ) (n : ℕ) (s : Commonring C)
    → ((r : Ring C) → P r → P (invoke s.cr_update_rptr r))
    → P s.ring
    → (a : ℕ × ℕ) → (reserve_for_write_multiple s n).0 ≡ some a
    → (r : Ring C) × P r
      × (1 < available r)
      × (claim_many n r ≡ (a, (reserve_for_write_multiple s n).1.ring))
unfolding reserve_for_write_multiple
reserve_for_write_multiple-some P n s = reserve_round-some P (claim_many n) 1 s

abbrev Leaves {ℓ} : {C : Type 0} → (Ring C → Type ℓ) → Bool × Commonring C → Type ℓ
Leaves P o = P o.1.ring

-- The loop of `write_available` changes `was_full` alone, and refreshes.
pub available_round_keeps {ℓ} :
    {C : Type 0} (P : Ring C → Type ℓ)
    → ((b : Bool) (r : Ring C) → P r → P (record r { was_full = b }))
    → (retry : ℕ) (s : Commonring C) → ((r : Ring C) → P r → P (invoke s.cr_update_rptr r))
    → P s.ring
    → P (available_round retry s).1.ring
unfolding available_round
available_round_keeps P full zero s fresh p =
    if_keeps (Leaves P) (ltb 1 (available s.ring))
      (if_keeps (Leaves P) (not s.was_full) p
        (if_keeps (Leaves P) (ltb (s.depth / 8) (available s.ring)) (full false s.ring p) p))
      (full true s.ring p)
available_round_keeps P full (suc retry) s fresh p =
    let again =
      available_round_keeps P full retry
        (record { ring = invoke s.cr_update_rptr s.ring; calls = s.calls }) fresh
        (fresh s.ring p) in
    if_keeps (Leaves P) (ltb 1 (available s.ring))
      (if_keeps (Leaves P) (not s.was_full) p
        (if_keeps (Leaves P) (ltb (s.depth / 8) (available s.ring)) (full false s.ring p) again))
      again
