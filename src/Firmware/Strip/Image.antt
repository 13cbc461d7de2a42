-- ===== src/Firmware/Strip/Image.antt =====
-- firmware.c: the image that brcmf_fw_nvram_strip makes of a file for one device.
use mathlib.Core.List.{append-nil}
use omdrop_awdl.Prelude.{
  ℕ, ◌+◌, ◌-◌, ◌*◌, ◌/◌, ◌^◌, ◌≤◌, ◌<◌, ◌≡◌, ◌≢◌, refl, ◌∙◌, ap, sym, Bool, true, false, Option,
  none, some, List, [], ◌∷◌, ◌++◌, ◌==◌, leb, length, length-append, length-replicate, replicate,
  arith,
}
use omdrop_awdl.Firmware.Nvram.{NvramParser, Parsed, done, parse, init_nvram_parser, max_nvram_size}
use omdrop_awdl.Firmware.Nvram.Run.{ends_line, parse_total}
use omdrop_awdl.Firmware.Strip.{
  put, default_boardrev, add_defaults, macaddr_key, add_macaddr, new_length, token, finish,
  first_size, image, finished, complete, strip_parsed, parsed, is_some, nvram_strip,
}

-- The text of a MAC address: six bytes in hexadecimal, with a colon between them.
abbrev pub IsMac : Option (List ℕ) → Type 0
IsMac none = Unit
IsMac (some mac) = length mac ≡ 17

abbrev pub revision_entry : Bool → List ℕ
revision_entry true = []
revision_entry false = default_boardrev ++ (0 ∷ [])

abbrev pub mac_entry : Option (List ℕ) → List ℕ
mac_entry none = []
mac_entry (some mac) = macaddr_key ++ (mac ++ (0 ∷ []))

-- The board revision if the file has none, and the address if there is one.
abbrev pub with_added : List ℕ → Bool → Option (List ℕ) → List ℕ
with_added nvram boardrev_found mac = (nvram ++ revision_entry boardrev_found) ++ mac_entry mac

-- Four bytes as a word.
abbrev pub le32 : List ℕ → ℕ
le32 (a ∷ b ∷ c ∷ d ∷ []) = a + b * 2 ^ 8 + c * 2 ^ 16 + d * 2 ^ 24
le32 _ = 0

pub record IsImage (nvram : List ℕ) (boardrev_found : Bool) (mac : Option (List ℕ)) (out : List ℕ)
    : Type 0 where
  pub zeros : ℕ
  pub words : ℕ
  pub form : out ≡ (with_added nvram boardrev_found mac ++ replicate zeros 0) ++ token words
  pub padded : (0 < zeros) × (zeros ≤ 4)
  pub whole : length (with_added nvram boardrev_found mac) + zeros ≡ 4 * words
  pub token_value : le32 (token words) ≡ words + (2 ^ 16 - 1 - words) * 2 ^ 16

put-some :
    (size : ℕ) (nvram bytes : List ℕ)
    → length nvram + length bytes ≤ size
    → put size nvram bytes ≡ some (nvram ++ bytes)
unfolding put
put-some size nvram bytes h =
    let fits : leb (length nvram + length bytes) size ≡ true = ground arith in rw fits refl

token_lem :
    (words : ℕ) → words < 2 ^ 16 → le32 (token words) ≡ words + (2 ^ 16 - 1 - words) * 2 ^ 16
unfolding token
token_lem words h = omega arith

add_defaults_lem :
    (size : ℕ) (boardrev_found : Bool) (nvram : List ℕ)
    → length nvram + 14 ≤ size
    → (add_defaults size boardrev_found nvram ≡ some (nvram ++ revision_entry boardrev_found))
      × (length (nvram ++ revision_entry boardrev_found) ≤ length nvram + 14)
unfolding add_defaults
add_defaults_lem size true nvram h =
    (ap some (sym (append-nil nvram)), omega (arith, length-append nvram []))
add_defaults_lem size false nvram h =
    let entry = default_boardrev ++ (0 ∷ []) in
    (put-some size nvram entry (omega arith), omega (arith, length-append nvram entry))

add_macaddr_lem :
    (size : ℕ) (mac : Option (List ℕ)) (nvram : List ℕ)
    → IsMac mac
    → length nvram + 26 ≤ size
    → (add_macaddr size mac nvram ≡ some (nvram ++ mac_entry mac))
      × (length (nvram ++ mac_entry mac) ≤ length nvram + 26)
unfolding add_macaddr
add_macaddr_lem size none nvram m h =
    (ap some (sym (append-nil nvram)), omega (arith, length-append nvram []))
add_macaddr_lem size (some mac) nvram m h =
    let entry = macaddr_key ++ (mac ++ (0 ∷ [])) in
    let long = length-append mac (0 ∷ []) in
    (
      put-some size nvram entry (omega (arith, long)),
      omega (arith, long, length-append nvram entry),
    )

finish-IsImage :
    (size : ℕ) (boardrev_found : Bool) (mac : Option (List ℕ)) (nvram : List ℕ)
    → IsMac mac
    → length nvram + 48 ≤ size
    → length nvram ≤ max_nvram_size
    → (out : List ℕ) × (finish size boardrev_found mac nvram ≡ some out)
      × (length out ≤ size)
      × IsImage nvram boardrev_found mac out
unfolding finish
finish-IsImage size boardrev_found mac nvram m fits short =
    let (e1, l1) = add_defaults_lem size boardrev_found nvram (omega arith) in
    let nvram1 = nvram ++ revision_entry boardrev_found in
    let (e2, l2) = add_macaddr_lem size mac nvram1 m (omega arith) in
    let nvram2 = nvram1 ++ mac_entry mac in
    let zeros = new_length nvram2 - length nvram2 in
    let pad = length-replicate {A = ℕ} zeros 0 in
    let e3 = put-some size nvram2 (replicate zeros 0) (omega (arith, pad)) in
    let nvram3 = nvram2 ++ replicate zeros 0 in
    let long = length-append nvram2 (replicate zeros 0) in
    let words = new_length nvram2 / 4 in
    let four : length (token words) ≡ 4 = unfold token in refl in
    let e4 = put-some size nvram3 (token words) (omega (arith, pad, long, four)) in
    (
      nvram3 ++ token words,
      rw e1 (rw e2 (rw e3 e4)),
      omega (arith, pad, long, four, length-append nvram3 (token words)),
      record {
        zeros = zeros;
        words = words;
        form = refl;
        padded = (omega arith, omega arith);
        whole = omega arith;
        token_value = token_lem words (omega arith);
      },
    )

done_len : Parsed → ℕ
done_len (done nvp) = length nvp.nvram
done_len _ = 0

-- On a file shorter than 2 ^ 32 bytes that ends in a newline or a NUL, in which the parser finds an
-- entry and no sign of a file for several devices, with a MAC address of 17 characters if there is
-- one, nvram_strip makes an image that fits the buffer of the parser. The image is the entries, a
-- board revision if the file has none, the address, one to four zeros up to a multiple of four
-- bytes, and the token, which is the number of words before it and its complement.
pub nvram_strip-IsImage :
    (kzalloc : Bool) (data_at : ℕ → ℕ) (data_len : ℕ) (mac : Option (List ℕ)) (domain bus : List ℕ)
    (nvp : NvramParser)
    → data_len < 2 ^ 32
    → ends_line data_at data_len ≡ true
    → IsMac mac
    → parse (5 * data_len + 4) (init_nvram_parser data_at data_len (is_some mac)) ≡ done nvp
    → nvp.multi_dev_v1 ≡ false
    → nvp.multi_dev_v2 ≡ false
    → length nvp.nvram ≢ 0
    → (out : List ℕ) × (nvram_strip true kzalloc data_at data_len mac domain bus ≡ image out)
      × (length out ≤ first_size data_len)
      × IsImage nvp.nvram nvp.boardrev_found mac out
unfolding nvram_strip parsed strip_parsed complete finished done_len
nvram_strip-IsImage kzalloc data_at data_len mac domain bus nvp h last m e v1 v2 some_entry =
    let (nvp', e', le, lt) = parse_total data_at data_len (is_some mac) h last in
    let same : length nvp'.nvram ≡ length nvp.nvram = ap done_len (sym e' ∙ e) in
    let (out, made, fits, shape) =
      finish-IsImage (first_size data_len) nvp.boardrev_found mac nvp.nvram m (ground (arith, same))
        (ground (arith, same)) in
    let filled : (length nvp.nvram == 0) ≡ false = ground arith in
    (out, rw e (rw (v1, v2) (rw filled (rw made refl))), fits, shape)
