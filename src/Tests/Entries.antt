-- ===== src/Tests/Entries.antt =====
-- The entries of xtlv.c.
use omdrop_awdl.Prelude.{ℕ, List, ◌<◌, ◌≤◌, ◌≡◌, refl, some, [], ◌∷◌, arith, drop, length}
use omdrop_awdl.Xtlv.{pack_header, data_size, header_size, header, idu8, lenu8}
use omdrop_awdl.Xtlv.Layout.{read_id, read_len, width_limit, pack_header-data_size}

-- An 8-bit identifier and a 16-bit length, aligned.
packed_three : pack_header 9 3 (some (1 ∷ 2 ∷ 3 ∷ [])) 3 ≡ 9 ∷ 3 ∷ 0 ∷ 1 ∷ 2 ∷ 3 ∷ []
unfolding pack_header header idu8 lenu8
packed_three = refl

id_fits : 9 < width_limit (idu8 3)
unfolding idu8
id_fits = omega arith

abbrev three_bytes : List ℕ
three_bytes = 1 ∷ 2 ∷ 3 ∷ []

len_fits : length three_bytes < width_limit (lenu8 3)
unfolding lenu8
len_fits = omega arith

abbrev entry_bytes : List ℕ
entry_bytes = pack_header 9 3 (some (1 ∷ 2 ∷ 3 ∷ [])) 3

pack_header-data_size_example :
    (read_id entry_bytes (idu8 3) ≡ 9)
    × (read_len entry_bytes (idu8 3) (lenu8 3) ≡ 3)
    × (drop (header_size 3) entry_bytes ≡ 1 ∷ 2 ∷ 3 ∷ [])
    × (length entry_bytes ≤ data_size 3 3)
pack_header-data_size_example = pack_header-data_size 9 3 three_bytes id_fits len_fits
