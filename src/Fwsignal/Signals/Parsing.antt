-- ===== src/Fwsignal/Signals/Parsing.antt =====
-- fwsignal.c: brcmf_fws_hdrpull on any bytes.
use omdrop_awdl.Prelude.{
  ℕ, zero, suc, ◌+◌, ◌-◌, ◌≤◌, ◌<◌, ◌≡◌, inl, inr, refl, Bool, false, Option, some, List, [], ◌∷◌,
  ◌==◌, ◌||◌, length, length-drop, drop, arith, Bool-cases, ltb, u32,
}
use omdrop_awdl.Fwsignal.Signals.{
  Indications, Signals, Pulled, filler, get_tlv_len, is_short, indicate, take_tlv, take_signal,
  parse_signals, pull_end, hdrpull,
}

module _ {S : Type 0} (ind : Indications S) where
  -- A round takes no more bytes than there are.
  IsRound : ℕ → Option (ℕ × Bool × Signals S) → Type 0
  IsRound data_len result =
      (taken : ℕ) × (schedule : Bool) × (s : Signals S) × (result ≡ some (taken, schedule, s))
      × (taken ≤ data_len)

  take_tlv_ends :
      (s : Signals S) (type len : ℕ) (value : List ℕ) (data_len : ℕ)
      → IsRound data_len (take_tlv ind s type (len ∷ value) data_len)
  unfolding take_tlv IsRound
  take_tlv_ends s type len value data_len = elim (Bool-cases (ltb data_len (len + 2))) [
    | inl over ↦ rw over (0, false, s, refl, omega arith)
    | inr fits ↦ elim (Bool-cases (is_short len (get_tlv_len s type).0)) [
      | inl short ↦ rw (fits, short) (0, false, (get_tlv_len s type).1, refl, omega arith)
      | inr long ↦
          let result = indicate ind (get_tlv_len s type).1 type value in
          rw (fits, long) (len + 2, result.0, result.1, refl, ground arith)
    ]
  ]

  take_signal_ends :
      (s : Signals S) (signal_data : List ℕ) (data_len : ℕ)
      → data_len < length signal_data
      → IsRound data_len (take_signal ind s signal_data data_len)
  unfolding take_signal IsRound
  take_signal_ends s signal_data zero h = (0, false, s, refl, omega arith)
  take_signal_ends s [] (suc left) h = absurd (omega arith)
  take_signal_ends s (type ∷ []) (suc left) h = absurd (omega arith)
  take_signal_ends s (type ∷ len ∷ value) (suc left) h = elim (Bool-cases (type == filler)) [
    | inl skip ↦ rw skip (1, false, s, refl, omega arith)
    | inr tlv ↦ rw tlv (take_tlv_ends s type len value (suc left))
  ]

  pub parse_signals_ends :
      (fuel : ℕ) (s : Signals S) (signal_data : List ℕ) (data_len : ℕ) (status : Bool)
      → data_len < length signal_data
      → data_len < fuel
      → (result : Bool × ℕ × Signals S) × (parse_signals ind fuel s signal_data data_len status
          ≡ some result)
  unfolding parse_signals IsRound
  parse_signals_ends zero s signal_data data_len status h lt = absurd (omega arith)
  parse_signals_ends (suc fuel) s signal_data data_len status h lt =
      let (taken, schedule, s1, e, le) = take_signal_ends s signal_data data_len h in
      elim (Bool-cases (taken == 0)) [
        | inl over ↦ ((status, data_len, s1), rw e (rw over refl))
        | inr on ↦
            let rest =
              parse_signals_ends fuel s1 (drop taken signal_data) (data_len - taken)
                (status || schedule) (omega (arith, length-drop taken signal_data))
                (ground arith) in
            (rest.0, rw e (rw on rest.1))
      ]

  -- On any bytes, with a header that is shorter than the packet and whatever the handlers do,
  -- hdrpull ends, reads nothing behind the packet for the types and lengths of the signals, and
  -- leaves the packet without the header.
  pub hdrpull_ends :
      (fw_signals : Bool) (s : Signals S) (siglen : ℕ) (skb : List ℕ)
      → siglen < length skb
      → (result : Pulled S) × (hdrpull ind fw_signals s siglen skb ≡ some result)
        × (result.skb ≡ drop siglen skb)
  unfolding hdrpull pull_end
  hdrpull_ends fw_signals s siglen skb h =
      let room : ltb (length skb) siglen ≡ false = ground arith in
      elim (Bool-cases (siglen == 0)) [
        | inl nothing ↦
            let e : siglen ≡ 0 = ground arith in
            rw (room, nothing) (record { scheduled = false; state = s; skb = skb }, refl, rw e refl)
        | inr on ↦ elim (Bool-cases fw_signals) [
          | inl enabled ↦
              let s1 : Signals S = record s { header_pulls = u32 (s.header_pulls + 1) } in
              let parsed = parse_signals_ends (siglen + 1) s1 skb siglen false h (omega arith) in
              rw (room, on, enabled) (pull_end (drop siglen skb) parsed.0, rw parsed.1 refl, refl)
          | inr disabled ↦
              rw (room, on, disabled)
                (record { scheduled = false; state = s; skb = drop siglen skb }, refl, refl)
        ]
      ]
