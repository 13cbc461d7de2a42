-- ===== src/Xtlv/Layout.antt =====
-- xtlv.c: the room that an entry takes, and reading it back.
use omdrop_awdl.Prelude.{
  ℕ, ◌+◌, ◌-◌, ◌*◌, ◌/◌, ◌%◌, ◌^◌, ◌≤◌, ◌<◌, ◌≡◌, refl, Bool, true, false, some, List, [], ◌∷◌,
  ◌++◌, take, length, length-append, drop, get_or, if◌then◌else◌, arith, ap, ◌∙◌,
}
use omdrop_awdl.Xtlv.{align32, idu8, lenu8, header_size, data_size, header, pack_header}

-- How a reader finds the three parts.
abbrev pub read_id : List ℕ → Bool → ℕ
read_id bytes true = get_or bytes 0 0
read_id bytes false = get_or bytes 0 0 + 256 * get_or bytes 1 0

abbrev pub id_width : Bool → ℕ
id_width true = 1
id_width false = 2

abbrev pub read_len : List ℕ → Bool → Bool → ℕ
read_len bytes id8 true = get_or bytes (id_width id8) 0
read_len bytes id8 false = get_or bytes (id_width id8) 0 + 256 * get_or bytes (id_width id8 + 1) 0

abbrev pub width_limit : Bool → ℕ
width_limit true = 2 ^ 8
width_limit false = 2 ^ 16

header_parts :
    (id len : ℕ) (id8 len8 : Bool) (rest : List ℕ)
    → id < width_limit id8
    → len < width_limit len8
    → (read_id (header id len id8 len8 ++ rest) id8 ≡ id)
      × (read_len (header id len id8 len8 ++ rest) id8 len8 ≡ len)
      × (drop (id_width id8 + id_width len8) (header id len id8 len8 ++ rest) ≡ rest)
      × (length (header id len id8 len8) ≡ id_width id8 + id_width len8)
unfolding header
header_parts id len false false rest h h' = (omega arith, omega arith, refl, refl)
header_parts id len false true rest h h' = (omega arith, omega arith, refl, refl)
header_parts id len true false rest h h' = (omega arith, omega arith, refl, refl)
header_parts id len true true rest h h' = (omega arith, omega arith, refl, refl)

header_size_lem :
    (id8 len8 : Bool)
    → 4 - (if id8 then 1 else 0) - (if len8 then 1 else 0) ≡ id_width id8 + id_width len8
header_size_lem true true = refl
header_size_lem true false = refl
header_size_lem false true = refl
header_size_lem false false = refl

whole : (len : ℕ) (len8 : Bool) → len < width_limit len8 → (if len8 then len % 256 else len) ≡ len
whole len true h = omega arith
whole len false h = refl

take_all : (xs : List ℕ) → take (length xs) xs ≡ xs
take_all [] = refl
take_all (x ∷ xs) = ap (λ s. x ∷ s) (take_all xs)

fits :
    (all front len : ℕ) (w : ℕ) (b : Bool)
    → all ≡ front + len
    → front ≡ w
    → all ≤ (if b then (len + w + 3) / 4 * 4 else len + w)
fits all front len w true e e' = omega arith
fits all front len w false e e' = omega arith

-- With an identifier and a length that fit the widths that the options give them, the bytes of an
-- entry hold the identifier, the length and the data, and they are no more than data_size says.
pub pack_header-data_size :
    (id opts : ℕ) (data_bytes : List ℕ)
    → id < width_limit (idu8 opts)
    → length data_bytes < width_limit (lenu8 opts)
    → let bytes : List ℕ = pack_header id (length data_bytes) (some data_bytes) opts in
      (read_id bytes (idu8 opts) ≡ id)
      × (read_len bytes (idu8 opts) (lenu8 opts) ≡ length data_bytes)
      × (drop (header_size opts) bytes ≡ data_bytes)
      × (length bytes ≤ data_size (length data_bytes) opts)
unfolding pack_header header_size data_size
pack_header-data_size id opts data_bytes h h' =
    let len : ℕ = length data_bytes in
    let body : take (if lenu8 opts then len % 256 else len) data_bytes ≡ data_bytes =
      ap (λ n. take n data_bytes) (whole len (lenu8 opts) h') ∙ take_all data_bytes in
    let (ids, lens, rest, wide) = header_parts id len (idu8 opts) (lenu8 opts) data_bytes h h' in
    let size = header_size_lem (idu8 opts) (lenu8 opts) in
    let long = length-append (header id len (idu8 opts) (lenu8 opts)) data_bytes in
    rw (body, size) (ids, lens, rest, fits _ _ _ _ (align32 opts) long wide)
