-- ===== src/Tests/Files.antt =====
-- The NVRAM parser of firmware.c.
use omdrop_awdl.Prelude.{ℕ, List, ◌≤◌, ◌<◌, ◌≡◌, refl, false, [], ◌∷◌, arith, length, get_or}
use omdrop_awdl.Firmware.Nvram.{
  NvramParser, Parsed, done, fault, parse, init_nvram_parser, handle, handle_idle, handle_key,
  handle_value, handle_comment, find_eoc, next_line, copy, starts_with, is_nvram_char,
  is_whitespace, read_key, after, max_nvram_size,
}
use omdrop_awdl.Firmware.Nvram.Run.{parse_total}

-- "a=1\n#b\n"
abbrev text : List ℕ
text = 97 ∷ 61 ∷ 49 ∷ 10 ∷ 35 ∷ 98 ∷ 10 ∷ []

abbrev text_at : ℕ → ℕ
text_at i = get_or text i 0

abbrev written : Parsed → List ℕ
written (done nvp) = nvp.nvram
written _ = []

text_parsed : written (parse 39 (init_nvram_parser text_at 7 false)) ≡ 97 ∷ 61 ∷ 49 ∷ 0 ∷ []
unfolding parse init_nvram_parser handle handle_idle handle_key handle_value handle_comment find_eoc
    next_line copy starts_with is_nvram_char is_whitespace read_key after
text_parsed = refl

-- Without its last newline the comment is searched past the end of the file.
text_cut : parse 39 (init_nvram_parser text_at 6 false) ≡ fault
unfolding parse init_nvram_parser handle handle_idle handle_key handle_value handle_comment find_eoc
    next_line copy starts_with is_nvram_char is_whitespace read_key after
text_cut = refl

parse_total_example :
    (nvp : NvramParser) × (parse 39 (init_nvram_parser text_at 7 false) ≡ done nvp)
    × (length nvp.nvram ≤ 7)
    × (length nvp.nvram < max_nvram_size)
parse_total_example = parse_total text_at 7 false (omega arith) refl
