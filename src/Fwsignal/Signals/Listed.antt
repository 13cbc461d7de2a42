-- ===== src/Fwsignal/Signals/Listed.antt =====
-- fwsignal.c: brcmf_fws_hdrpull on a header that is a list of signals, and may end in a broken one.
use omdrop_awdl.Prelude.{
  ◌⊎◌, inl, inr, Bool-cases, ℕ, ◌+◌, ◌≤◌, ◌<◌, ◌≡◌, refl, ◌∙◌, ap, Bool, true, false, some, List,
  ◌++◌, ◌==◌, length, length-append, drop, arith, ltb, u32, if◌then◌else◌,
}
use omdrop_awdl.Fwsignal.Signals.{Indications, Signals, pull_end, hdrpull}
use omdrop_awdl.Fwsignal.Signals.Pieces.{Piece, bytes, AllLong, IsBroken, AllHeard}
use omdrop_awdl.Fwsignal.Signals.Rounds.{drop-append, parse_signals-bytes, parse_signals_end}

-- The counts at the end: a failure if `more` bytes of the header are left, and a header without a
-- packet if `left` is 0.
abbrev pub counted : {S : Type 0} → ℕ → ℕ → Signals S → Signals S
counted more left s = record s {
  tlv_parse_failed = if more == 0 then s.tlv_parse_failed else u32 (s.tlv_parse_failed + 1);
  header_only_pkt = if left == 0 then u32 (s.header_only_pkt + 1) else s.header_only_pkt;
}

module _ {S : Type 0} (ind : Indications S) where
  pull_end_lem :
      (skb : List ℕ) (status : Bool) (more : ℕ) (s : Signals S)
      → pull_end skb (status, more, s)
        ≡ record { scheduled = status; state = counted more (length skb) s; skb = skb }
  unfolding pull_end
  pull_end_lem skb status more s = elim (Bool-cases (more == 0)) [
    | inl whole ↦ elim (Bool-cases (length skb == 0)) [
      | inl alone ↦ rw (whole, alone) refl
      | inr packet ↦ rw (whole, packet) refl
    ]
    | inr broken ↦ elim (Bool-cases (length skb == 0)) [
      | inl alone ↦ rw (broken, alone) refl
      | inr packet ↦ rw (broken, packet) refl
    ]
  ]

  -- The header is a list of skipped bytes and signals with the bytes that their types ask for, and
  -- may end in a signal that goes on behind it or is shorter than its type asks for. Whatever the
  -- handlers do, hdrpull hands each signal of the list to the handler of its type, in order and
  -- with the bytes that follow its length. A type without a handler counts once as invalid, and one
  -- that is not defined twice. A broken signal goes to no handler, and is counted as a failure to
  -- parse; nothing else is. The header is counted, its bytes are taken off, a header without a
  -- packet is counted, and the packets are scheduled if a handler asks for it.
  pub hdrpull-bytes :
      (s : Signals S) (ps : List Piece) (more : ℕ) (rest : List ℕ)
      → AllLong ps
      → (more ≡ 0) ⊎ IsBroken more rest
      → more ≤ length rest
      → 0 < length (bytes ps) + more
      → (outcome : Bool × Signals S) × AllHeard ind rest
          (record s { header_pulls = u32 (s.header_pulls + 1) })
          ps
          outcome
        × (hdrpull ind true s (length (bytes ps) + more) (bytes ps ++ rest)
            ≡ some (record {
              scheduled = outcome.0;
              state = counted more (length (drop more rest)) outcome.1;
              skb = drop more rest;
            }))
  unfolding hdrpull
  hdrpull-bytes s ps more rest long ending inside some_byte =
      let n : ℕ = length (bytes ps) + more in
      let room : ltb (length (bytes ps ++ rest)) n ≡ false =
        ground (arith, length-append (bytes ps) rest) in
      let on : (n == 0) ≡ false = ground arith in
      let s1 : Signals S = record s { header_pulls = u32 (s.header_pulls + 1) } in
      let (outcome, all, fuel, enough, e) =
        parse_signals-bytes ind (n + 1) s1 ps rest more false long (omega arith) in
      let e' = e ∙ parse_signals_end ind fuel outcome.1 rest more outcome.0 ending enough in
      (
        outcome,
        all,
        rw (room, on)
            (rw (e', drop-append (bytes ps) rest n more refl)
              (ap some (pull_end_lem (drop more rest) outcome.0 more outcome.1))),
      )
