-- ===== src/Tests/Signalling.antt =====
-- The signals of fwsignal.c.
use omdrop_awdl.Prelude.{
  ℕ, ◌+◌, ◌≡◌, refl, Bool, inl, inr, true, false, none, some, List, [], ◌∷◌, ◌++◌, length, get_or,
  arith, u32, drop,
}
use omdrop_awdl.Fwsignal.Credits.{Credits, fifocreditback_indicate}
use omdrop_awdl.Fwsignal.Signals.{
  Indications, Signals, Pulled, hdrpull, parse_signals, take_signal, take_tlv, get_tlv_len,
  tlv_len_in, indicate,
}
use omdrop_awdl.Fwsignal.Signals.Parsing.{hdrpull_ends}
use omdrop_awdl.Fwsignal.Signals.Pieces.{Piece, gap, tlv, bytes, AllLong, IsBroken, AllHeard}
use omdrop_awdl.Fwsignal.Signals.Listed.{counted, hdrpull-bytes}

-- The credits that come back, with explicit credits; the other signals are ignored.
abbrev crediting : Indications Credits
crediting = record {
  macdesc_indicate = λ s type value. s;
  macdesc_state_indicate = λ s type value. (false, s);
  interface_state_indicate = λ s type value. (false, s);
  request_indicate = λ s type value. (false, s);
  txstatus_indicate = λ s type value. s;
  fifocreditback_indicate =
      λ s value. (true, fifocreditback_indicate true s (λ i. get_or value i 0));
  rssi_indicate = λ s value. s;
  dbg_seqnum_check = λ s value. s;
}

abbrev no_signal : Signals Credits
no_signal = record {
  fws = record {
    fifo_credit = λ i. 1;
    init_fifo_credit = λ i. 2;
    credits_borrowed = λ i j. 0;
    fifo_credit_map = λ i. true;
  };
  reorder = [];
  tlv_parse_failed = 0;
  tlv_invalid_type = 0;
  header_only_pkt = 0;
  header_pulls = 0;
}

-- A credit for the first fifo, and the strength of the signal.
abbrev pieces : List Piece
pieces = gap ∷ tlv 11 (1 ∷ 0 ∷ 0 ∷ 0 ∷ 0 ∷ 0 ∷ []) ∷ tlv 8 (200 ∷ []) ∷ []

abbrev broken : List ℕ
broken = 11 ∷ 200 ∷ 1 ∷ 69 ∷ []

pieces-AllLong : AllLong pieces
unfolding tlv_len_in
pieces-AllLong =
    (omega arith, omega arith, omega arith, (omega arith, omega arith, omega arith, tt))

-- A signal that goes on behind the three bytes of the header.
broken-IsBroken : IsBroken 3 broken
broken-IsBroken = record {
  type = 11;
  len = 200;
  value = 1 ∷ 69 ∷ [];
  begins = refl;
  some_byte = omega arith;
  no_gap = omega arith;
  cut = inl (omega arith);
}

hdrpull-bytes_example :
    (outcome : Bool × Signals Credits) × AllHeard crediting broken
      (record no_signal { header_pulls = u32 (no_signal.header_pulls + 1) })
      pieces
      outcome
    × (hdrpull crediting true no_signal (length (bytes pieces) + 3) (bytes pieces ++ broken)
        ≡ some (record {
          scheduled = outcome.0;
          state = counted 3 (length (drop 3 broken)) outcome.1;
          skb = drop 3 broken;
        }))
hdrpull-bytes_example =
    hdrpull-bytes crediting no_signal pieces 3 broken pieces-AllLong (inr broken-IsBroken)
      (omega arith) (omega arith)

hdrpull_ends_example :
    (result : Pulled Credits) × (hdrpull crediting true no_signal 3 (11 ∷ 200 ∷ 1 ∷ 69 ∷ [])
      ≡ some result)
    × (result.skb ≡ drop 3 (11 ∷ 200 ∷ 1 ∷ 69 ∷ []))
hdrpull_ends_example =
    hdrpull_ends crediting true no_signal 3 (11 ∷ 200 ∷ 1 ∷ 69 ∷ []) (omega arith)

-- A signal of an unknown type is counted twice.
unknown_type : (indicate crediting (get_tlv_len no_signal 77).1 77 []).1.tlv_invalid_type ≡ 2
unfolding indicate get_tlv_len tlv_len_in
unknown_type = refl

-- A packet that ends in the type of a signal: the length is read behind it.
lone_type : hdrpull crediting true no_signal 1 (11 ∷ []) ≡ none
unfolding hdrpull parse_signals take_signal take_tlv
lone_type = refl
