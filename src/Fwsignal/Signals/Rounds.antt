-- ===== src/Fwsignal/Signals/Rounds.antt =====
-- fwsignal.c: the rounds of the loop of brcmf_fws_hdrpull over a list of signals.
use mathlib.Core.List.{append_assoc}
use omdrop_awdl.Prelude.{
  ◌⊎◌, inl, inr, is_none, Bool-cases, ℕ, zero, suc, ◌+◌, ◌-◌, ◌≤◌, ◌<◌, ◌≡◌, ◌≢◌, refl, ◌∙◌, ap,
  Bool, true, false, Option, none, some, List, [], ◌∷◌, ◌++◌, ◌==◌, ◌||◌, length, length-append,
  drop, arith, ltb,
}
use omdrop_awdl.Fwsignal.Signals.{
  Indications, Signals, filler, get_tlv_len, tlv_len_in, tlv_deflist, is_short, indicate, take_tlv,
  take_signal, parse_signals,
}
use omdrop_awdl.Fwsignal.Signals.Heard.{indicate-Heard}
use omdrop_awdl.Fwsignal.Signals.Pieces.{
  Piece, gap, tlv, bytes, IsLong, IsShort, AllLong, IsBroken, AllHeard, ended, skips, hears,
}

is_short-long : (len : ℕ) (defined : Option ℕ) → IsLong defined len → is_short len defined ≡ false
unfolding is_short
is_short-long len none h = refl
is_short-long len (some defined) h = ground arith

is_short-short : (len : ℕ) (defined : Option ℕ) → IsShort defined len → is_short len defined ≡ true
unfolding is_short
is_short-short len none h = absurd h
is_short-short len (some defined) h = ground arith

is_none-short : (len : ℕ) (defined : Option ℕ) → IsShort defined len → is_none defined ≡ false
is_none-short len none h = absurd h
is_none-short len (some defined) h = refl

pub drop-append : (xs ys : List ℕ) (m n : ℕ) → m ≡ length xs + n → drop m (xs ++ ys) ≡ drop n ys
drop-append [] ys m n e = let same : m ≡ n = omega arith in rw same refl
drop-append (x ∷ xs) ys zero n e = absurd (omega arith)
drop-append (x ∷ xs) ys (suc m) n e = drop-append xs ys m n (omega arith)

or_assoc : (a b c : Bool) → ((a || b) || c) ≡ (a || (b || c))
or_assoc false b c = refl
or_assoc true b c = refl

or_false : (a : Bool) → (a || false) ≡ a
or_false false = refl
or_false true = refl

drop_tlv :
    (type len : ℕ) (value rest : List ℕ)
    → drop (length value + 2) (type ∷ len ∷ (value ++ rest)) ≡ rest
drop_tlv type len value rest =
    drop-append (type ∷ len ∷ value) rest (length value + 2) 0 (omega arith)

module _ {S : Type 0} (ind : Indications S) where
  take_gap :
      (s : Signals S) (signal_data : List ℕ) (data_len : ℕ)
      → 0 < data_len
      → take_signal ind s (filler ∷ signal_data) data_len ≡ some (1, false, s)
  unfolding take_signal
  take_gap s signal_data zero pos = absurd (omega arith)
  take_gap s signal_data (suc left) pos = refl

  take_signal-tlv :
      (s : Signals S) (type : ℕ) (signal_data : List ℕ) (data_len : ℕ)
      → type ≢ filler
      → 0 < data_len
      → take_signal ind s (type ∷ signal_data) data_len ≡ take_tlv ind s type signal_data data_len
  unfolding take_signal
  take_signal-tlv s type signal_data zero ne pos = absurd (omega arith)
  take_signal-tlv s type signal_data (suc left) ne pos =
      let other : (type == filler) ≡ false = ground arith in rw other refl

  take_tlv-fits :
      (s : Signals S) (type : ℕ) (value rest : List ℕ) (data_len : ℕ)
      → length value + 2 ≤ data_len
      → IsLong (get_tlv_len s type).0 (length value)
      → take_tlv ind s type (length value ∷ (value ++ rest)) data_len
        ≡ some (
          length value + 2,
          (indicate ind (get_tlv_len s type).1 type (value ++ rest)).0,
          (indicate ind (get_tlv_len s type).1 type (value ++ rest)).1,
        )
  unfolding take_tlv
  take_tlv-fits s type value rest data_len fits long =
      let over : ltb data_len (length value + 2) ≡ false = ground arith in
      rw over (rw (is_short-long (length value) (get_tlv_len s type).0 long) refl)

  take_tlv-cut :
      (s : Signals S) (type len : ℕ) (value : List ℕ) (data_len : ℕ)
      → (data_len < len + 2) ⊎ IsShort (tlv_len_in tlv_deflist type) len
      → take_tlv ind s type (len ∷ value) data_len ≡ some (0, false, s)
  unfolding take_tlv get_tlv_len
  take_tlv-cut s type len value data_len cut = elim (Bool-cases (ltb data_len (len + 2))) [
    | inl over ↦ rw over refl
    | inr fits ↦ elim cut [
      | inl far ↦ absurd (ground arith)
      | inr short ↦
          rw
            (
              fits,
              is_short-short len (tlv_len_in tlv_deflist type) short,
              is_none-short len (tlv_len_in tlv_deflist type) short,
            )
            refl
    ]
  ]

  parse_signals_next :
      (fuel : ℕ) (s s1 : Signals S) (signal_data next : List ℕ) (data_len taken left : ℕ)
      (status schedule : Bool)
      → take_signal ind s signal_data data_len ≡ some (taken, schedule, s1)
      → 0 < taken
      → drop taken signal_data ≡ next
      → data_len - taken ≡ left
      → parse_signals ind (suc fuel) s signal_data data_len status
        ≡ parse_signals ind fuel s1 next left (status || schedule)
  unfolding parse_signals
  parse_signals_next fuel s s1 signal_data next data_len taken left status schedule e pos e' e'' =
      let on : (taken == 0) ≡ false = ground arith in rw e (rw (on, e', e'') refl)

  parse_signals_stop :
      (fuel : ℕ) (s : Signals S) (signal_data : List ℕ) (data_len : ℕ) (status : Bool)
      → 0 < fuel
      → take_signal ind s signal_data data_len ≡ some (0, false, s)
      → parse_signals ind fuel s signal_data data_len status ≡ some (status, data_len, s)
  unfolding parse_signals
  parse_signals_stop zero s signal_data data_len status pos e = absurd (omega arith)
  parse_signals_stop (suc fuel) s signal_data data_len status pos e = rw e refl

  -- What the loop makes of the pieces, with `more` bytes to go.
  abbrev pub IsParsed :
      ℕ → Signals S → List Piece → List ℕ → Bool → Option (Bool × ℕ × Signals S) → Type 0
  IsParsed more s ps rest status result =
      (outcome : Bool × Signals S) × AllHeard ind rest s ps outcome
      × (fuel' : ℕ) × (more < fuel')
      × (result ≡ parse_signals ind fuel' outcome.1 rest more (status || outcome.0))

  pub parse_signals-bytes :
      (fuel : ℕ) (s : Signals S) (ps : List Piece) (rest : List ℕ) (more : ℕ) (status : Bool)
      → AllLong ps
      → length (bytes ps) + more < fuel
      → IsParsed more s ps rest status
          (parse_signals ind fuel s (bytes ps ++ rest) (length (bytes ps) + more) status)
  unfolding get_tlv_len
  parse_signals-bytes zero s ps rest more status long lt = absurd (omega arith)
  parse_signals-bytes (suc fuel) s [] rest more status long lt =
      let e : 0 + more ≡ more = omega arith in
      ((false, s), ended, suc fuel, omega arith, rw (e, or_false status) refl)
  parse_signals-bytes (suc fuel) s (gap ∷ ps) rest more status long lt =
      let n : ℕ = length (bytes (gap ∷ ps)) + more in
      let (outcome, all, fuel', enough, e) =
        parse_signals-bytes fuel s ps rest more (status || false) long (omega arith) in
      (
        outcome,
        skips all,
        fuel',
        enough,
        parse_signals_next fuel s s (bytes (gap ∷ ps) ++ rest) (bytes ps ++ rest) n 1
              (length (bytes ps) + more) status false
              (take_gap s (bytes ps ++ rest) n (omega arith)) (omega arith) refl (omega arith)
            ∙ (e
                ∙ ap (λ (b : Bool). parse_signals ind fuel' outcome.1 rest more b)
                    (or_assoc status false outcome.0)),
      )
  parse_signals-bytes (suc fuel) s (tlv type value ∷ ps) rest more status (ne, short, fits, long)
        lt =
      let n : ℕ = length (bytes (tlv type value ∷ ps)) + more in
      let sizes = length-append value (bytes ps) in
      let follow : List ℕ = bytes ps ++ rest in
      let (schedule, s1) = indicate ind (get_tlv_len s type).1 type (value ++ follow) in
      let taken : take_signal ind s (type ∷ length value ∷ (value ++ follow)) n
          ≡ some (length value + 2, schedule, s1) =
        take_signal-tlv s type (length value ∷ (value ++ follow)) n ne (omega arith)
        ∙ take_tlv-fits s type value follow n (omega (arith, sizes)) fits in
      let (outcome, all, fuel', enough, e) =
        parse_signals-bytes fuel s1 ps rest more (status || schedule) long (omega (arith, sizes)) in
      (
        (schedule || outcome.0, outcome.1),
        hears (indicate-Heard ind s (value ++ follow) type ne) all,
        fuel',
        enough,
        rw (append_assoc value (bytes ps) rest) (
            parse_signals_next fuel s s1 (type ∷ length value ∷ (value ++ follow)) follow n
              (length value + 2) (length (bytes ps) + more) status schedule taken (omega arith)
              (drop_tlv type (length value) value follow) (omega (arith, sizes))
            ∙ (e
                ∙ ap (λ (b : Bool). parse_signals ind fuel' outcome.1 rest more b)
                    (or_assoc status schedule outcome.0))),
      )

  -- No bytes are left, or the signal that follows is broken.
  pub parse_signals_end :
      (fuel : ℕ) (s : Signals S) (rest : List ℕ) (more : ℕ) (status : Bool)
      → (more ≡ 0) ⊎ IsBroken more rest
      → more < fuel
      → parse_signals ind fuel s rest more status ≡ some (status, more, s)
  unfolding take_signal
  parse_signals_end fuel s rest more status (inl e) lt =
      parse_signals_stop fuel s rest more status (omega arith) (rw e refl)
  parse_signals_end fuel s rest more status (inr b) lt =
      parse_signals_stop fuel s rest more status (omega arith) (
        rw b.begins (
          take_signal-tlv s b.type (b.len ∷ b.value) more b.no_gap b.some_byte
          ∙ take_tlv-cut s b.type b.len b.value more b.cut))
