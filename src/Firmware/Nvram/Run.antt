-- ===== src/Firmware/Nvram/Run.antt =====
-- firmware.c: the NVRAM parser on a file that ends a line.
use omdrop_awdl.Prelude.{
  ℕ, zero, suc, ◌+◌, ◌-◌, ◌*◌, ◌^◌, ◌≤◌, ◌<◌, ◌≡◌, refl, Bool, true, false, ◌||◌, ◌==◌, ltb, length,
  arith, ap, ◌∙◌, Bool-cases, inl, inr,
}
use omdrop_awdl.Firmware.Nvram.{
  max_nvram_size, NvramParser, is_end, init_nvram_parser, done, after, parse,
}
use omdrop_awdl.Firmware.Nvram.Bounds.{measure, IsBounded}
use omdrop_awdl.Firmware.Nvram.Steps.{handle-IsStep}

-- The last byte of the file is a newline or a NUL.
abbrev pub ends_line : (ℕ → ℕ) → ℕ → Bool
ends_line data_at data_len = (data_at (data_len - 1) == 10) || (data_at (data_len - 1) == 0)

parse-IsBounded :
    (fuel : ℕ) (nvp : NvramParser)
    → IsBounded nvp
    → is_end nvp.state ≡ false
    → ends_line nvp.data_at nvp.data_len ≡ true
    → measure nvp < fuel
    → (nvp' : NvramParser) × (parse fuel nvp ≡ done nvp')
      × IsBounded nvp'
      × (nvp'.data_len ≡ nvp.data_len)
unfolding parse after
parse-IsBounded zero nvp v live last h = absurd (omega arith)
parse-IsBounded (suc fuel) nvp v live last h = elim (Bool-cases (ltb nvp.pos nvp.data_len)) [
  | inr e ↦ (nvp, rw e refl, v, refl)
  | inl e ↦
      let (nvp1, next, s) = handle-IsStep nvp nvp.state refl live v (ground arith) last in
      elim (Bool-cases (is_end nvp1.state)) [
        | inl over ↦
            (nvp1, rw e (ap (after (parse fuel)) next ∙ rw over refl), s.bounded, s.same_len)
        | inr goes ↦
            let last1 : ends_line nvp1.data_at nvp1.data_len ≡ true =
              ap (λ f. ends_line f nvp1.data_len) s.same_data
              ∙ (ap (ends_line nvp.data_at) s.same_len ∙ last) in
            let (nvp2, rest, v2, same) =
              parse-IsBounded fuel nvp1 s.bounded goes last1 (omega (arith, s.closer)) in
            (nvp2, rw e (ap (after (parse fuel)) next ∙ rw goes rest), v2, same ∙ s.same_len)
      ]
]

-- On a file shorter than 2 ^ 32 bytes whose last byte is a newline or a NUL, the parser ends
-- without reading outside the file, and what it has written is no longer than the file and shorter
-- than BRCMF_FW_MAX_NVRAM_SIZE.
pub parse_total :
    (data_at : ℕ → ℕ) (data_len : ℕ) (strip_mac : Bool)
    → data_len < 2 ^ 32
    → ends_line data_at data_len ≡ true
    → (nvp : NvramParser) × (parse (5 * data_len + 4) (init_nvram_parser data_at data_len strip_mac)
        ≡ done nvp)
      × (length nvp.nvram ≤ data_len)
      × (length nvp.nvram < max_nvram_size)
unfolding init_nvram_parser
parse_total data_at data_len strip_mac h last =
    let (nvp, e, v, same) =
      parse-IsBounded (5 * data_len + 4) (init_nvram_parser data_at data_len strip_mac)
        (record {
          fits = h;
          pos_in = omega arith;
          len_in = omega arith;
          len_max = omega arith;
          near = omega arith;
          behind = λ i c. omega arith;
          entered = λ i. cc;
        })
        refl last (omega arith) in
    (nvp, e, omega (arith, v.len_in), v.len_max)
