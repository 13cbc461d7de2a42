-- ===== src/Firmware/Strip.antt =====
-- firmware.c: brcmf_fw_nvram_strip, which makes the image for the device of what the parser has read.
pub mod Image
use omdrop_awdl.Prelude.{
  ℕ, zero, suc, ◌+◌, ◌-◌, ◌*◌, ◌/◌, ◌%◌, ◌^◌, min, Bool, true, false, not, ◌&&◌, ◌||◌, Option, none,
  some, List, [], ◌∷◌, ◌++◌, ◌==◌, ltb, leb, length, get_or, drop, replicate, sub8, if◌then◌else◌,
  ◌>>=◌,
}
use omdrop_awdl.Firmware.Nvram.{
  NvramParser, Parsed, fault, out_of_fuel, done, parse, init_nvram_parser, devpath, pcie, boardrev,
  max_nvram_size,
}

-- `strncmp(text, prefix, strlen(prefix)) == 0`; what follows the bytes of an image in its buffer is 0.
unfoldable pub has_prefix : List ℕ → List ℕ → Bool
has_prefix [] text = true
has_prefix (c ∷ prefix) [] = false
has_prefix (c ∷ prefix) (d ∷ text) = (c == d) && has_prefix prefix text

-- The bytes up to the next NUL, and those behind it.
unfoldable pub split_entry : List ℕ → List ℕ × List ℕ
split_entry [] = ([], [])
split_entry (c ∷ rest) =
    let (entry, behind) = split_entry rest in if c == 0 then ([], rest) else (c ∷ entry, behind)

-- BRCMF_FW_NVRAM_DEVPATH_LEN
abbrev pub devpath_len : ℕ
devpath_len = 19

-- The virtual id of the device: "devpathX" followed by one of the two paths. `rest` are the bytes
-- from `nvram[i]` on, and as many rounds as there are bytes are enough.
unfoldable pub find_id : ℕ → List ℕ → List ℕ → List ℕ → Option ℕ
find_id zero pci_path pcie_path rest = none
find_id (suc rounds) pci_path pcie_path rest =
    let path : List ℕ = drop 8 rest in
    let again : Option ℕ = find_id rounds pci_path pcie_path (split_entry rest).1 in
    if not (ltb devpath_len (length rest))
    then none
    else if has_prefix devpath rest && (has_prefix pci_path path || has_prefix pcie_path path)
    then some (sub8 (get_or rest 7 0) 48)
    else again

-- The copying loop of both versions, while more than `tail` bytes are left: the entries with the
-- prefix, without it, and whether one of them is the board revision.
unfoldable pub copy_entries : ℕ → List ℕ → ℕ → List ℕ → Bool → List ℕ × Bool
copy_entries zero prefix tail rest found = ([], found)
copy_entries (suc rounds) prefix tail rest found =
    let matched : Bool = has_prefix prefix rest in
    let body : List ℕ = if matched then drop (length prefix) rest else rest in
    let (entry, behind) = split_entry body in
    let (entries, found') =
      copy_entries rounds prefix tail behind (found || (matched && has_prefix boardrev body)) in
    if not (ltb tail (length rest))
    then ([], found)
    else (if matched then entry ++ (0 ∷ entries) else entries, found')

-- The entries "X:...", where X is the id.
unfoldable pub copy_v1 : List ℕ → Option ℕ → List ℕ × Bool
copy_v1 nvram none = ([], false)
copy_v1 nvram (some id) = copy_entries (length nvram) ((id + 48) ∷ 58 ∷ []) 0 nvram false

-- The entries are none if the allocation or the search fails. `domain` and `bus` are the two numbers
-- as snprintf writes them.
unfoldable pub strip_multi_v1 : Bool → List ℕ → List ℕ → List ℕ → List ℕ × Bool
strip_multi_v1 kzalloc domain bus nvram =
    let pci_path : List ℕ = 61 ∷ 112 ∷ 99 ∷ 105 ∷ 47 ∷ (domain ++ (47 ∷ bus)) in
    let pcie_path : List ℕ = 61 ∷ (pcie ++ (domain ++ (47 ∷ bus))) in
    if not kzalloc || ltb (length nvram) (devpath_len + 6)
    then ([], false)
    else copy_v1 nvram (find_id (length nvram) pci_path pcie_path nvram)

-- `nvram_len - len` is a difference of unsigned numbers: if it wraps around, the loop leaves the
-- buffer, a fault.
unfoldable pub strip_multi_v2 : Bool → List ℕ → List ℕ → List ℕ → Option (List ℕ × Bool)
strip_multi_v2 kzalloc domain bus nvram =
    let prefix : List ℕ = pcie ++ (domain ++ (47 ∷ (bus ++ (47 ∷ [])))) in
    if not kzalloc
    then some ([], false)
    else if ltb (length nvram) (length prefix)
    then none
    else some (copy_entries (length nvram) prefix (length prefix) nvram false)

-- Bytes written behind those of the image, in a buffer of `size` bytes. `none` if they leave it.
unfoldable pub put : ℕ → List ℕ → List ℕ → Option (List ℕ)
put size nvram bytes =
    if leb (length nvram + length bytes) size then some (nvram ++ bytes) else none

-- "boardrev=0xff"
abbrev pub default_boardrev : List ℕ
default_boardrev = boardrev ++ (61 ∷ 48 ∷ 120 ∷ 102 ∷ 102 ∷ [])

unfoldable pub add_defaults : ℕ → Bool → List ℕ → Option (List ℕ)
add_defaults size boardrev_found nvram =
    if boardrev_found then some nvram else put size nvram (default_boardrev ++ (0 ∷ []))

-- "macaddr="
abbrev pub macaddr_key : List ℕ
macaddr_key = 109 ∷ 97 ∷ 99 ∷ 97 ∷ 100 ∷ 100 ∷ 114 ∷ 61 ∷ []

-- `mac` is what "%pM" writes, if the platform has an address.
unfoldable pub add_macaddr : ℕ → Option (List ℕ) → List ℕ → Option (List ℕ)
add_macaddr size none nvram = some nvram
add_macaddr size (some mac) nvram = put size nvram (macaddr_key ++ (mac ++ (0 ∷ [])))

-- roundup(nvram_len + 1, 4)
abbrev pub new_length : List ℕ → ℕ
new_length nvram = (length nvram + 1 + 3) / 4 * 4

-- The length in words and its complement, 16 bits each, in little-endian order.
unfoldable pub token : ℕ → List ℕ
token words =
    let low : ℕ = words % 2 ^ 16 in
    let high : ℕ = 2 ^ 16 - 1 - low in low % 256 ∷ low / 256 ∷ high % 256 ∷ high / 256 ∷ []

unfoldable pub finish : ℕ → Bool → Option (List ℕ) → List ℕ → Option (List ℕ)
finish size boardrev_found mac nvram = do
  nvram1 ← add_defaults size boardrev_found nvram
  nvram2 ← add_macaddr size mac nvram1
  nvram3 ← put size nvram2 (replicate (new_length nvram2 - length nvram2) 0)
  put size nvram3 (token (new_length nvram2 / 4))

-- The size of the buffer that brcmf_init_nvram_parser allocates, and of that of a strip function.
abbrev pub first_size : ℕ → ℕ
first_size data_len = min data_len max_nvram_size + (13 + 1) + (25 + 1) + (1 + 3 + 4)

abbrev pub strip_size : List ℕ → ℕ
strip_size nvram = length nvram + 1 + 3 + 4

-- NULL, the image, a fault, or the end of the fuel.
pub data Stripped : Type 0 where
  null : Stripped
  image : List ℕ → Stripped
  left_buffer : Stripped
  no_fuel : Stripped

unfoldable pub finished : Option (List ℕ) → Stripped
finished none = left_buffer
finished (some nvram) = image nvram

unfoldable pub complete : ℕ → Option (List ℕ) → Option (List ℕ × Bool) → Stripped
complete size mac none = left_buffer
complete size mac (some (nvram, boardrev_found)) =
    if length nvram == 0 then null else finished (finish size boardrev_found mac nvram)

-- Behind the loop of the parser.
unfoldable pub strip_parsed : Bool → ℕ → Option (List ℕ) → List ℕ → List ℕ → NvramParser → Stripped
strip_parsed kzalloc data_len mac domain bus nvp =
    if nvp.multi_dev_v1
    then complete (strip_size nvp.nvram) mac (some (strip_multi_v1 kzalloc domain bus nvp.nvram))
    else if nvp.multi_dev_v2
    then complete (strip_size nvp.nvram) mac (strip_multi_v2 kzalloc domain bus nvp.nvram)
    else complete (first_size data_len) mac (some (nvp.nvram, nvp.boardrev_found))

unfoldable pub parsed : Bool → ℕ → Option (List ℕ) → List ℕ → List ℕ → Parsed → Stripped
parsed kzalloc data_len mac domain bus fault = left_buffer
parsed kzalloc data_len mac domain bus out_of_fuel = no_fuel
parsed kzalloc data_len mac domain bus (done nvp) = strip_parsed kzalloc data_len mac domain bus nvp

abbrev pub is_some : Option (List ℕ) → Bool
is_some none = false
is_some (some mac) = true

-- `kzalloc` says whether the parser's buffer can be allocated, and whether that of a strip function
-- can. `mac` is the MAC address of the platform, if it has one.
unfoldable pub nvram_strip :
    Bool → Bool → (ℕ → ℕ) → ℕ → Option (List ℕ) → List ℕ → List ℕ → Stripped
nvram_strip kzalloc kzalloc' data_at data_len mac domain bus =
    if not kzalloc
    then null
    else parsed kzalloc' data_len mac domain bus
        (parse (5 * data_len + 4) (init_nvram_parser data_at data_len (is_some mac)))
