-- ===== src/D11/Ht.antt =====
-- brcmutil/d11.c: the 11n layout, from a channel to its chanspec and back.
use omdrop_awdl.Prelude.{
  ℕ, ◌+◌, ◌*◌, ◌<◌, ◌≡◌, refl, Bool, true, false, ◌==◌, leb, if◌then◌else◌, arith, ap, ◌∙◌,
  Bool-cases, inl, inr,
}
use omdrop_awdl.D11.{
  maskset16, ChanBw, bw20, bw40, ChanSb, sb_none, sb_lll, sb_llu, Chan, band_2g, band_5g,
}
use omdrop_awdl.D11.{ch_max_2g_channel}
use omdrop_awdl.D11.Sideband.{is_valid, control}
use omdrop_awdl.D11.Encode.{d11n_sb, d11n_bw, is_bw20, d11n_encchspec, d11ac_encchspec}
use omdrop_awdl.D11.Decode.{
  decode_chnum, d11n_decode_bw, d11n_decode_band, d11n_decchspec, d11ac_decchspec,
}

-- brcmu_d11_attach: BRCMU_D11N_IOTYPE is 1.
abbrev pub encchspec : ℕ → Chan → Chan
encchspec io_type = if io_type == 1 then d11n_encchspec else d11ac_encchspec

abbrev pub decchspec : ℕ → Chan → Chan
decchspec io_type = if io_type == 1 then d11n_decchspec else d11ac_decchspec

abbrev pub is_ht : ChanBw → Bool
is_ht bw20 = true
is_ht bw40 = true
is_ht _ = false

abbrev pub band_of : ℕ → ℕ
band_of chnum = if leb chnum ch_max_2g_channel then band_2g else band_5g

abbrev pub bnd_of : ℕ → ℕ
bnd_of chnum = if leb chnum ch_max_2g_channel then 2 else 1

-- The fields of the 11n chspec.
abbrev pub sb_bits : ChanBw → ChanSb → ℕ
sb_bits bw20 sb = 3
sb_bits bw sb_lll = 1
sb_bits bw sb = 2

abbrev pub bw_bits : ChanBw → ℕ
bw_bits bw20 = 2
bw_bits bw = 3

bits_lem : (bw : ChanBw) (sb : ChanSb) → (sb_bits bw sb < 4) × (bw_bits bw < 4)
bits_lem bw20 sb = (omega arith, omega arith)
bits_lem bw40 sb_lll = (omega arith, omega arith)
bits_lem bw40 sb = (omega arith, omega arith)
bits_lem bw sb_lll = (omega arith, omega arith)
bits_lem bw sb = (omega arith, omega arith)

codes_lem :
    (bw : ChanBw) (sb : ChanSb)
    → is_ht bw ≡ true
    → is_valid bw sb ≡ true
    → (d11n_sb (if is_bw20 bw then sb_none else sb) ≡ 256 * sb_bits bw sb)
      × (d11n_bw bw ≡ 1024 * bw_bits bw)
codes_lem bw20 sb t v = (refl, refl)
codes_lem bw40 sb_lll t v = (refl, refl)
codes_lem bw40 sb_llu t v = (refl, refl)
codes_lem bw40 sb t v = cc
codes_lem bw sb t v = cc

bnd_lem :
    (chnum : ℕ) → (if leb chnum ch_max_2g_channel then 0x2000 else 0x1000) ≡ 4096 * bnd_of chnum
bnd_lem chnum = ground arith

set_all :
    (chnum sb bw : ℕ)
    → chnum < 256
    → sb < 4
    → bw < 4
    → maskset16 10 2 0 (1024 * bw) (maskset16 8 2 0 (256 * sb) (maskset16 0 8 0 chnum 0))
      ≡ chnum + 256 * sb + 1024 * bw
set_all chnum sb bw h h1 h2 = omega arith

encoded :
    (ch : Chan)
    → ch.chnum < 256
    → is_ht ch.bw ≡ true
    → is_valid ch.bw ch.sb ≡ true
    → (d11n_encchspec ch).chspec
      ≡ ch.chnum + 256 * sb_bits ch.bw ch.sb + 1024 * bw_bits ch.bw + 4096 * bnd_of ch.chnum
unfolding d11n_encchspec
encoded ch h t v =
    let codes = codes_lem ch.bw ch.sb t v in
    let bits = bits_lem ch.bw ch.sb in
    rw (codes.0, codes.1, bnd_lem ch.chnum)
      (ap (λ s. s + 4096 * bnd_of ch.chnum) (set_all ch.chnum _ _ h bits.0 bits.1))

module _ (old : Chan) (chnum bnd : ℕ) (h : chnum < 256) where
  decode_bw :
      (bw : ChanBw) (sb : ChanSb)
      → is_ht bw ≡ true
      → is_valid bw sb ≡ true
      → old.chspec ≡ chnum + 256 * sb_bits bw sb + 1024 * bw_bits bw + 4096 * bnd
      → d11n_decode_bw (decode_chnum old)
        ≡ record old { chnum = chnum; control_ch_num = control chnum bw sb; bw = bw; sb = sb }
  decode_bw bw20 sb_none t v e = ground arith
  decode_bw bw20 sb t v e = cc
  decode_bw bw40 sb_lll t v e = ground arith
  decode_bw bw40 sb_llu t v e = ground arith
  decode_bw bw40 sb t v e = cc
  decode_bw bw sb t v e = cc

decode_band :
    (ch : Chan) (chnum sb bw : ℕ)
    → chnum < 256
    → sb < 4
    → bw < 4
    → ch.chspec ≡ chnum + 256 * sb + 1024 * bw + 4096 * bnd_of chnum
    → d11n_decode_band ch ≡ record ch { band = band_of chnum }
decode_band ch chnum sb bw h h1 h2 e = elim (Bool-cases (leb chnum ch_max_2g_channel)) [
  | inl low ↦ ground arith
  | inr high ↦ ground arith
]

-- A channel of 20 or 40 MHz with a sideband of its width, encoded in the 11n layout, decodes, from
-- whatever the other fields held, to itself in the band that its number implies, with the control
-- channel that the sideband counts from the lower edge.
pub d11n_decchspec-d11n_encchspec :
    (ch old : Chan)
    → ch.chnum < 256
    → is_ht ch.bw ≡ true
    → is_valid ch.bw ch.sb ≡ true
    → old.chspec ≡ (d11n_encchspec ch).chspec
    → d11n_decchspec old ≡ record ch {
      chspec = old.chspec;
      control_ch_num = control ch.chnum ch.bw ch.sb;
      band = band_of ch.chnum;
    }
unfolding d11n_decchspec
d11n_decchspec-d11n_encchspec ch old h t v e =
    let e' = e ∙ encoded ch h t v in
    ap d11n_decode_band (decode_bw old ch.chnum (bnd_of ch.chnum) h ch.bw ch.sb t v e')
    ∙ decode_band _ ch.chnum (sb_bits ch.bw ch.sb) (bw_bits ch.bw) h (bits_lem ch.bw ch.sb).0
        (bits_lem ch.bw ch.sb).1 e'
