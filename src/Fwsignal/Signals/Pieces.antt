-- ===== src/Fwsignal/Signals/Pieces.antt =====
-- fwsignal.c: packets that begin with a list of signals, and may go on with a broken one.
use omdrop_awdl.Prelude.{
  ◌⊎◌, ℕ, ◌+◌, ◌^◌, ◌≤◌, ◌<◌, ◌≡◌, ◌≢◌, Bool, false, Option, none, some, List, [], ◌∷◌, ◌++◌, ◌||◌,
  length,
}
use omdrop_awdl.Fwsignal.Signals.{Indications, Signals, filler, tlv_len_in, tlv_deflist}
use omdrop_awdl.Fwsignal.Signals.Heard.{Heard}

-- A byte that is skipped, or a signal with its type and the bytes that follow its length.
pub data Piece : Type 0 where
  gap : Piece
  tlv : ℕ → List ℕ → Piece

abbrev pub bytes : List Piece → List ℕ
bytes [] = []
bytes (gap ∷ ps) = filler ∷ bytes ps
bytes (tlv type value ∷ ps) = type ∷ length value ∷ (value ++ bytes ps)

-- The value has the bytes that its type asks for.
abbrev pub IsLong : Option ℕ → ℕ → Type 0
IsLong none n = Unit
IsLong (some defined) n = defined ≤ n

abbrev pub IsShort : Option ℕ → ℕ → Type 0
IsShort none n = ⊥
IsShort (some defined) n = n < defined

abbrev pub AllLong : List Piece → Type 0
AllLong [] = Unit
AllLong (gap ∷ ps) = AllLong ps
AllLong (tlv type value ∷ ps) =
    (type ≢ filler)
    × (length value < 2 ^ 8)
    × IsLong (tlv_len_in tlv_deflist type) (length value)
    × AllLong ps

-- `more` bytes of the header are left, and they begin with a signal that goes on behind the header,
-- or that is shorter than its type asks for.
pub record IsBroken (more : ℕ) (rest : List ℕ) : Type 0 where
  pub type : ℕ
  pub len : ℕ
  pub value : List ℕ
  pub begins : rest ≡ type ∷ len ∷ value
  pub some_byte : 0 < more
  pub no_gap : type ≢ filler
  pub cut : (more < len + 2) ⊎ IsShort (tlv_len_in tlv_deflist type) len

-- Each signal in turn, with the bytes that follow it, up to the end of the packet.
pub data AllHeard {S : Type 0} (ind : Indications S) (rest : List ℕ)
    : Signals S → List Piece → Bool × Signals S → Type 0 where
  ended : {s : Signals S} → AllHeard ind rest s [] (false, s)
  skips :
      {s : Signals S} {ps : List Piece} {outcome : Bool × Signals S}
      → AllHeard ind rest s ps outcome
      → AllHeard ind rest s (gap ∷ ps) outcome
  hears :
      {s : Signals S} {type : ℕ} {value : List ℕ} {ps : List Piece} {one later : Bool × Signals S}
      → Heard ind s type (value ++ (bytes ps ++ rest)) one
      → AllHeard ind rest one.1 ps later
      → AllHeard ind rest s (tlv type value ∷ ps) (one.0 || later.0, later.1)
