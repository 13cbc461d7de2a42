-- ===== src/Fwsignal/Signals/Heard.antt =====
-- fwsignal.c: which handler a signal goes to, by the number of its type, and what becomes of the types
-- that have none.
use mathlib.Core.Path.{subst}
use native.Mathlib.Decide.{ℕ_discrete}
use omdrop_awdl.Prelude.{
  ℕ, ◌+◌, ◌<◌, ◌≡◌, ◌≢◌, ◌⊎◌, inl, inr, refl, sym, ap, ◌∙◌, Bool, false, none, List, ◌==◌, arith,
  u32,
}
use omdrop_awdl.Fwsignal.Signals.{
  Indications, Signals, filler, get_tlv_len, tlv_len_in, tlv_deflist, indicate, invalid_type,
}

-- The numbers that BRCMF_FWS_TLV_DEFLIST leaves out.
abbrev pub IsUndefined : ℕ → Type 0
IsUndefined type = (type ≡ 0) ⊎ ((14 < type) × (type < 18)) ⊎ ((19 < type) × (type ≢ 255))

module _ {S : Type 0} where
  -- `n` more signals of an invalid type.
  abbrev pub invalid_types : ℕ → Signals S → Signals S
  invalid_types n s = record s { tlv_invalid_type = u32 (s.tlv_invalid_type + n) }

  abbrev pub with_fws : Signals S → S → Signals S
  with_fws s fws = record s { fws = fws }

  -- What a handler returns that may ask for the packets to be scheduled.
  abbrev pub of_answer : Signals S → Bool × S → Bool × Signals S
  of_answer s answer = (answer.0, with_fws s answer.1)

-- A signal, with the bytes that follow its length: whether its handler asks for the packets to be
-- scheduled, and the state that it leaves. A type without a handler counts once as invalid, and one
-- that is not defined counts twice.
pub data Heard {S : Type 0} (ind : Indications S) (s : Signals S) (type : ℕ) (value : List ℕ)
    : Bool × Signals S → Type 0 where
  by_mac_state :
      (type ≡ 1) ⊎ (type ≡ 2)
      → Heard ind s type value (of_answer s (ind.macdesc_state_indicate s.fws type value))
  by_request :
      (type ≡ 3) ⊎ (type ≡ 13)
      → Heard ind s type value (of_answer s (ind.request_indicate s.fws type value))
  by_status :
      (type ≡ 4) ⊎ (type ≡ 19)
      → Heard ind s type value (false, with_fws s (ind.txstatus_indicate s.fws type value))
  by_macdesc :
      (type ≡ 6) ⊎ (type ≡ 7)
      → Heard ind s type value (false, with_fws s (ind.macdesc_indicate s.fws type value))
  by_rssi : type ≡ 8 → Heard ind s type value (false, with_fws s (ind.rssi_indicate s.fws value))
  by_interface_state :
      (type ≡ 9) ⊎ (type ≡ 10)
      → Heard ind s type value (of_answer s (ind.interface_state_indicate s.fws type value))
  by_credits :
      type ≡ 11 → Heard ind s type value (of_answer s (ind.fifocreditback_indicate s.fws value))
  by_reorder : type ≡ 14 → Heard ind s type value (false, record s { reorder = value })
  by_seqnum :
      type ≡ 18 → Heard ind s type value (false, with_fws s (ind.dbg_seqnum_check s.fws value))
  unhandled : (type ≡ 5) ⊎ (type ≡ 12) → Heard ind s type value (false, invalid_types 1 s)
  undefined : IsUndefined type → Heard ind s type value (false, invalid_types 2 s)

-- A number is tried, and is not met again.
or_else : (P : ℕ → Type 0) (n k : ℕ) → P k → (n ≢ k → P n) → P n
or_else P n k at_k others = elim (ℕ_discrete n k) [
  | yes e ↦ subst P (sym e) at_k
  | no ne ↦ others ne
]

module _ {S : Type 0} (ind : Indications S) (s : Signals S) (value : List ℕ) where
  -- The default of the switch.
  no_handler :
      (t : Signals S) (type : ℕ)
      → type ≢ 1
      → type ≢ 2
      → type ≢ 3
      → type ≢ 4
      → type ≢ 6
      → type ≢ 7
      → type ≢ 8
      → type ≢ 9
      → type ≢ 10
      → type ≢ 11
      → type ≢ 13
      → type ≢ 14
      → type ≢ 18
      → type ≢ 19
      → indicate ind t type value ≡ (false, invalid_type t)
  unfolding indicate
  no_handler t type n1 n2 n3 n4 n6 n7 n8 n9 n10 n11 n13 n14 n18 n19 =
      let f1 : (type == 1) ≡ false = ground arith in
      let f2 : (type == 2) ≡ false = ground arith in
      let f3 : (type == 3) ≡ false = ground arith in
      let f4 : (type == 4) ≡ false = ground arith in
      let f6 : (type == 6) ≡ false = ground arith in
      let f7 : (type == 7) ≡ false = ground arith in
      let f8 : (type == 8) ≡ false = ground arith in
      let f9 : (type == 9) ≡ false = ground arith in
      let f10 : (type == 10) ≡ false = ground arith in
      let f11 : (type == 11) ≡ false = ground arith in
      let f13 : (type == 13) ≡ false = ground arith in
      let f14 : (type == 14) ≡ false = ground arith in
      let f18 : (type == 18) ≡ false = ground arith in
      let f19 : (type == 19) ≡ false = ground arith in
      rw (f1, f2, f3, f4, f6, f7, f8, f9, f10, f11, f13, f14, f18, f19) refl

  Indicated : ℕ → Type 0
  Indicated type = Heard ind s type value (indicate ind (get_tlv_len s type).1 type value)

  pub indicate-Heard :
      (type : ℕ)
      → type ≢ filler
      → Heard ind s type value (indicate ind (get_tlv_len s type).1 type value)
  unfolding Indicated indicate get_tlv_len tlv_len_in
  indicate-Heard type n255 = or_else Indicated type 1 (by_mac_state (inl refl)) λ n1.
      or_else Indicated type 2 (by_mac_state (inr refl)) λ n2.
        or_else Indicated type 3 (by_request (inl refl)) λ n3.
          or_else Indicated type 4 (by_status (inl refl)) λ n4.
            or_else Indicated type 5 (unhandled (inl refl)) λ n5.
              or_else Indicated type 6 (by_macdesc (inl refl)) λ n6.
                or_else Indicated type 7 (by_macdesc (inr refl)) λ n7.
                  or_else Indicated type 8 (by_rssi refl) λ n8.
                    or_else Indicated type 9 (by_interface_state (inl refl)) λ n9.
                      or_else Indicated type 10 (by_interface_state (inr refl)) λ n10.
                        or_else Indicated type 11 (by_credits refl) λ n11.
                          or_else Indicated type 12 (unhandled (inr refl)) λ n12.
                            or_else Indicated type 13 (by_request (inr refl)) λ n13.
                              or_else Indicated type 14 (by_reorder refl) λ n14.
                                or_else Indicated type 18 (by_seqnum refl) λ n18.
                                  or_else Indicated type 19 (by_status (inr refl)) λ n19.
                                    let away : tlv_len_in tlv_deflist type ≡ none = ground arith in
                                    let t : Signals S = (get_tlv_len s type).1 in
                                    let none_handles : indicate ind t type value
                                        ≡ (false, invalid_type t) =
                                      no_handler t type n1 n2 n3 n4 n6 n7 n8 n9 n10 n11 n13 n14 n18
                                        n19 in
                                    let once : t ≡ invalid_type s = rw away refl in
                                    let twice : u32 (u32 (s.tlv_invalid_type + 1) + 1)
                                        ≡ u32 (s.tlv_invalid_type + 2) =
                                      omega arith in
                                    let e : indicate ind t type value ≡ (false, invalid_types 2 s) =
                                      none_handles
                                      ∙ (ap (λ r. (false, invalid_type r)) once
                                          ∙ ap
                                              (λ (n : ℕ).
                                                (false, record s { tlv_invalid_type = n }))
                                              twice) in
                                    subst (λ r. Heard ind s type value r) (sym e)
                                      (undefined (omega arith))
