-- ===== src/Tests/Images.antt =====
-- The images of NVRAM files: firmware.c.
use omdrop_awdl.Prelude.{
  ℕ, List, none, ◌≤◌, ◌≡◌, refl, true, false, [], ◌∷◌, ◌++◌, arith, length, get_or,
}
use omdrop_awdl.Firmware.Nvram.{
  NvramParser, done, parse, init_nvram_parser, handle, handle_idle, handle_key, handle_value,
  handle_comment, find_eoc, next_line, copy, starts_with, is_nvram_char, is_whitespace, read_key,
  after,
}
use omdrop_awdl.Firmware.Strip.{
  image, left_buffer, nvram_strip, parsed, strip_parsed, complete, finished, finish, put,
  add_defaults, add_macaddr, token, strip_multi_v1, strip_multi_v2, copy_v1, copy_entries, find_id,
  has_prefix, split_entry,
}
use omdrop_awdl.Firmware.Strip.Image.{IsImage, nvram_strip-IsImage}

-- "boardrev=1\n"
abbrev text : List ℕ
text = 98 ∷ 111 ∷ 97 ∷ 114 ∷ 100 ∷ 114 ∷ 101 ∷ 118 ∷ 61 ∷ 49 ∷ 10 ∷ []

abbrev text_at : ℕ → ℕ
text_at i = get_or text i 0

abbrev read : NvramParser
read = record (init_nvram_parser text_at 11 false) {
  nvram = 98 ∷ 111 ∷ 97 ∷ 114 ∷ 100 ∷ 114 ∷ 101 ∷ 118 ∷ 61 ∷ 49 ∷ 0 ∷ [];
  line = 2;
  column = 1;
  pos = 11;
  entry = 0;
  boardrev_found = true;
}

text_parsed : parse 59 (init_nvram_parser text_at 11 false) ≡ done read
unfolding parse init_nvram_parser handle handle_idle handle_key handle_value handle_comment find_eoc
    next_line copy starts_with is_nvram_char is_whitespace read_key after
text_parsed = refl

-- Twelve bytes are three words.
text_stripped :
    nvram_strip true true text_at 11 none (48 ∷ []) (49 ∷ [])
    ≡ image (read.nvram ++ (0 ∷ 3 ∷ 0 ∷ 252 ∷ 255 ∷ []))
unfolding nvram_strip parsed strip_parsed complete finished finish put add_defaults add_macaddr
    token parse init_nvram_parser handle handle_idle handle_key handle_value handle_comment find_eoc
    next_line copy starts_with is_nvram_char is_whitespace read_key after
text_stripped = refl

nvram_strip-IsImage_example :
    (out : List ℕ) × (nvram_strip true true text_at 11 none (48 ∷ []) (49 ∷ []) ≡ image out)
    × (length out ≤ 59)
    × IsImage read.nvram true none out
unfolding init_nvram_parser
nvram_strip-IsImage_example =
    nvram_strip-IsImage true text_at 11 none (48 ∷ []) (49 ∷ []) read (omega arith) refl tt
      text_parsed (refl) (refl) (omega arith)

-- "pcie/0/1/a=1" NUL: the entry of device 0/1 and the board revision that is added need more than
-- the buffer of brcmf_fw_strip_multi_v2 holds.
abbrev multi : NvramParser
multi = record read {
  nvram = 112 ∷ 99 ∷ 105 ∷ 101 ∷ 47 ∷ 48 ∷ 47 ∷ 49 ∷ 47 ∷ 97 ∷ 61 ∷ 49 ∷ 0 ∷ [];
  multi_dev_v2 = true;
}

multi_overrun : strip_parsed true 13 none (48 ∷ []) (49 ∷ []) multi ≡ left_buffer
unfolding strip_parsed complete finished finish put add_defaults add_macaddr token strip_multi_v2
    copy_entries has_prefix split_entry init_nvram_parser
multi_overrun = refl

-- "pcie/=1" NUL is shorter than the prefix "pcie/0/1/", and the length of the loop wraps around.
multi_wrap :
    strip_multi_v2 true (48 ∷ []) (49 ∷ []) (112 ∷ 99 ∷ 105 ∷ 101 ∷ 47 ∷ 61 ∷ 49 ∷ 0 ∷ []) ≡ none
unfolding strip_multi_v2
multi_wrap = refl

-- "devpath0=pcie/0/1/" NUL "0:a=1" NUL "1:b=2" NUL: the id of device 0/1 is 0.
devices_copied :
    strip_multi_v1 true (48 ∷ []) (49 ∷ []) (
      100 ∷ 101 ∷ 118 ∷ 112 ∷ 97 ∷ 116 ∷ 104 ∷ 48 ∷ 61 ∷ 112 ∷ 99 ∷ 105 ∷ 101 ∷ 47 ∷ 48 ∷ 47 ∷ 49
      ∷ 47 ∷ 0 ∷ 48 ∷ 58 ∷ 97 ∷ 61 ∷ 49 ∷ 0 ∷ 49 ∷ 58 ∷ 98 ∷ 61 ∷ 50 ∷ 0 ∷ [])
    ≡ (97 ∷ 61 ∷ 49 ∷ 0 ∷ [], false)
unfolding strip_multi_v1 copy_v1 copy_entries find_id has_prefix split_entry
devices_copied = refl
