-- ===== src/Firmware/Nvram.antt =====
-- firmware.c: the parser that brcmf_fw_nvram_strip runs over an NVRAM file, a state machine over its
-- bytes. The file is a function from the offset, with its length.
pub mod Bounds
pub mod Steps
pub mod Run
use omdrop_awdl.Prelude.{
  ℕ, zero, suc, ◌+◌, ◌-◌, Bool, true, false, not, ◌&&◌, ◌||◌, Option, none, some, List, [], ◌∷◌,
  ◌++◌, ◌==◌, ltb, leb, length, u32, if◌then◌else◌,
}

-- IDLE, KEY, VALUE, COMMENT and END.
pub data ParserState : Type 0 where
  in_idle in_key in_value in_comment at_end : ParserState

-- BRCMF_FW_MAX_NVRAM_SIZE
abbrev pub max_nvram_size : ℕ
max_nvram_size = 64_000

-- `struct nvram_parser`; `nvram` holds the bytes written so far, so that nvram_len is its length.
pub record NvramParser : Type 0 where
  pub state : ParserState
  pub data_at : ℕ → ℕ
  pub data_len : ℕ
  pub nvram : List ℕ
  pub line : ℕ
  pub column : ℕ
  pub pos : ℕ
  pub entry : ℕ
  pub multi_dev_v1 : Bool
  pub multi_dev_v2 : Bool
  pub boardrev_found : Bool
  pub strip_mac : Bool

-- The bytes from 0x20 to 0x7e, but '#'.
unfoldable pub is_nvram_char : ℕ → Bool
is_nvram_char c = not (c == 35) && (leb 32 c && ltb c 127)

unfoldable pub is_whitespace : ℕ → Bool
is_whitespace c = (c == 32) || ((c == 13) || ((c == 10) || (c == 9)))

-- `nvp->column++; nvp->pos++;` and the next state.
abbrev pub proceed : ParserState → NvramParser → NvramParser
proceed st nvp = record nvp { state = st; column = u32 (nvp.column + 1); pos = u32 (nvp.pos + 1) }

abbrev pub goto_state : ParserState → NvramParser → NvramParser
goto_state st nvp = record nvp { state = st }

unfoldable pub handle_idle : NvramParser → NvramParser
handle_idle nvp =
    let c : ℕ = nvp.data_at nvp.pos in
    if c == 10
    then goto_state in_comment nvp
    else (if is_whitespace c || (c == 0)
        then proceed in_idle nvp
        else (if c == 35
            then goto_state in_comment nvp
            else (if is_nvram_char c
                then record nvp { state = in_key; entry = nvp.pos }
                else proceed in_idle nvp)))

-- `strncmp(&nvp->data[i], text, strlen(text)) == 0`. No text that is looked for holds the '=' at
-- nvp->pos, so the comparison ends within the file.
unfoldable pub starts_with : NvramParser → ℕ → List ℕ → Bool
starts_with nvp i [] = true
starts_with nvp i (c ∷ text) =
    let rest : Bool = starts_with nvp (i + 1) text in
    ltb i nvp.data_len && ((nvp.data_at i == c) && rest)

-- "RAW1", "devpath", "pcie/", "boardrev" and "macaddr".
abbrev pub raw1 : List ℕ
raw1 = 82 ∷ 65 ∷ 87 ∷ 49 ∷ []

abbrev pub devpath : List ℕ
devpath = 100 ∷ 101 ∷ 118 ∷ 112 ∷ 97 ∷ 116 ∷ 104 ∷ []

abbrev pub pcie : List ℕ
pcie = 112 ∷ 99 ∷ 105 ∷ 101 ∷ 47 ∷ []

abbrev pub boardrev : List ℕ
boardrev = 98 ∷ 111 ∷ 97 ∷ 114 ∷ 100 ∷ 114 ∷ 101 ∷ 118 ∷ []

abbrev pub macaddr : List ℕ
macaddr = 109 ∷ 97 ∷ 99 ∷ 97 ∷ 100 ∷ 100 ∷ 114 ∷ []

-- What the key, which ends at an '=', sets.
unfoldable pub read_key : NvramParser → NvramParser
read_key nvp = record nvp {
  multi_dev_v1 = nvp.multi_dev_v1 || starts_with nvp nvp.entry devpath;
  multi_dev_v2 = nvp.multi_dev_v2 || starts_with nvp nvp.entry pcie;
  boardrev_found = nvp.boardrev_found || starts_with nvp nvp.entry boardrev;
}

unfoldable pub handle_key : NvramParser → NvramParser
unfolding read_key
handle_key nvp =
    let c : ℕ = nvp.data_at nvp.pos in
    let ignored : Bool =
      starts_with nvp nvp.entry raw1 || (nvp.strip_mac && starts_with nvp nvp.entry macaddr) in
    if c == 61
    then proceed (if ignored then in_comment else in_value) (read_key nvp)
    else (if not (is_nvram_char c) || (c == 32)
        then goto_state in_comment nvp
        else proceed nvp.state nvp)

-- The `n` bytes from `i` on.
unfoldable pub copy : (ℕ → ℕ) → ℕ → ℕ → List ℕ
copy data_at i zero = []
copy data_at i (suc n) = data_at i ∷ copy data_at (i + 1) n

unfoldable pub handle_value : NvramParser → NvramParser
handle_value nvp =
    let cplen : ℕ = nvp.pos - nvp.entry in
    if not (is_nvram_char (nvp.data_at nvp.pos))
    then (if leb max_nvram_size (u32 (length nvp.nvram + cplen + 1))
        then goto_state at_end nvp
        else record nvp {
          nvram = nvp.nvram ++ (copy nvp.data_at nvp.entry cplen ++ (0 ∷ []));
          state = in_idle;
        })
    else proceed in_value nvp

-- `strchr(sol, '\n')`, and `strchr(sol, '\0')` where a NUL comes first. A search that leaves the
-- file is a fault, `none`.
unfoldable pub find_eoc : (ℕ → ℕ) → ℕ → ℕ → Option ℕ
find_eoc data_at i zero = none
find_eoc data_at i (suc left) =
    let rest : Option ℕ = find_eoc data_at (i + 1) left in
    if (data_at i == 10) || (data_at i == 0) then some i else rest

unfoldable pub next_line : NvramParser → Option ℕ → Option NvramParser
next_line nvp none = none
next_line nvp (some eoc) =
    some
      (record nvp { state = in_idle; line = u32 (nvp.line + 1); column = 1; pos = u32 (eoc + 1) })

unfoldable pub handle_comment : NvramParser → Option NvramParser
handle_comment nvp = next_line nvp (find_eoc nvp.data_at nvp.pos (nvp.data_len - nvp.pos))

-- nv_parser_states
unfoldable pub handle : NvramParser → ParserState → Option NvramParser
handle nvp in_idle = some (handle_idle nvp)
handle nvp in_key = some (handle_key nvp)
handle nvp in_value = some (handle_value nvp)
handle nvp in_comment = handle_comment nvp
handle nvp at_end = some (goto_state at_end nvp)

abbrev pub is_end : ParserState → Bool
is_end at_end = true
is_end _ = false

-- brcmf_init_nvram_parser, after its allocation, and the platform's MAC address.
unfoldable pub init_nvram_parser : (ℕ → ℕ) → ℕ → Bool → NvramParser
init_nvram_parser data_at data_len strip_mac = record {
  state = in_idle;
  data_at = data_at;
  data_len = data_len;
  nvram = [];
  line = 1;
  column = 1;
  pos = 0;
  entry = 0;
  multi_dev_v1 = false;
  multi_dev_v2 = false;
  boardrev_found = false;
  strip_mac = strip_mac;
}

-- What the loop comes to: it leaves the file, or its fuel is gone, or it ends.
pub data Parsed : Type 0 where
  fault : Parsed
  out_of_fuel : Parsed
  done : NvramParser → Parsed

unfoldable pub after : (NvramParser → Parsed) → Option NvramParser → Parsed
after again none = fault
after again (some nvp) = if is_end nvp.state then done nvp else again nvp

-- The loop of brcmf_fw_nvram_strip.
unfoldable pub parse : ℕ → NvramParser → Parsed
unfolding after
parse zero nvp = out_of_fuel
parse (suc fuel) nvp =
    if ltb nvp.pos nvp.data_len then after (parse fuel) (handle nvp nvp.state) else done nvp
