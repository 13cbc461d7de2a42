-- ===== src/Xtlv.antt =====
-- xtlv.c: entries of an identifier, a length and data, whose first two are 16 bits or 8 bits wide.
pub mod Layout
use omdrop_awdl.Prelude.{
  ℕ, ◌+◌, ◌-◌, ◌*◌, ◌/◌, ◌%◌, Bool, true, false, ◌&&◌, Option, none, some, List, [], ◌∷◌, ◌++◌,
  ◌==◌, take, u8, if◌then◌else◌,
}

-- The bits ALIGN32, IDU8 and LENU8 of the options.
unfoldable pub align32 : ℕ → Bool
align32 opts = opts % 2 == 1

unfoldable pub idu8 : ℕ → Bool
idu8 opts = opts / 2 % 2 == 1

unfoldable pub lenu8 : ℕ → Bool
lenu8 opts = opts / 4 % 2 == 1

-- From 4, the offset of `data` in the struct.
unfoldable pub header_size : ℕ → ℕ
header_size opts = 4 - (if idu8 opts then 1 else 0) - (if lenu8 opts then 1 else 0)

unfoldable pub data_size : ℕ → ℕ → ℕ
data_size dlen opts =
    if align32 opts then (dlen + header_size opts + 3) / 4 * 4 else dlen + header_size opts

-- put_unaligned_le16
abbrev pub le16 : ℕ → List ℕ
le16 v = u8 v ∷ u8 (v / 256) ∷ []

-- The header by the four combinations of the options.
unfoldable pub header : ℕ → ℕ → Bool → Bool → List ℕ
header id len false false = le16 id ++ le16 len
header id len true true = u8 id ∷ u8 len ∷ []
header id len true false = u8 id ∷ le16 len
header id len false true = le16 id ++ (u8 len ∷ [])

abbrev pub copied : ℕ → Option (List ℕ) → List ℕ
copied len none = []
copied len (some data_bytes) = take len data_bytes

-- The bytes that are written from the start of the entry on.
unfoldable pub pack_header : ℕ → ℕ → Option (List ℕ) → ℕ → List ℕ
pack_header id len data_bytes opts =
    header id len (idu8 opts) (lenu8 opts)
    ++ copied (if lenu8 opts then len % 256 else len) data_bytes
