-- ===== src/D11/Vht.antt =====
-- brcmutil/d11.c: the 11ac layout, from a channel to its chspec and back.
use omdrop_awdl.Prelude.{
  ℕ, zero, suc, ◌+◌, ◌*◌, ◌^◌, ◌≤◌, ◌<◌, ◌≡◌, refl, Bool, true, false, ◌==◌, ◌||◌, if◌then◌else◌,
  arith, ap, ◌∙◌,
}
use omdrop_awdl.D11.{
  off_mask, maskset16, ChanBw, bw20, bw40, bw80, bw80p80, bw160, ChanSb, sb_none, sb_lll, sb_llu,
  sb_lul, sb_luu, Chan, band_5g, band_6g,
}
use omdrop_awdl.D11.Sideband.{is_valid, sb_field, control}
use omdrop_awdl.D11.Encode.{d11ac_bw, is_bw20, is_sb_none, sb_number, d11ac_bnd, d11ac_encchspec}
use omdrop_awdl.D11.Decode.{decode_chnum, d11ac_decode_bw, d11ac_decode_band, d11ac_decchspec}

-- The chspec with these four fields.
abbrev pub packed : ℕ → ℕ → ℕ → ℕ → ℕ
packed chnum sb bw bnd = chnum + 256 * sb + 2048 * bw + 16384 * bnd

set_all :
    (old chnum sb bw bnd : ℕ)
    → old < 2 ^ 16
    → chnum < 256
    → sb < 8
    → bw < 8
    → off_mask 14 2 (maskset16 11 3 0 (2048 * bw) (maskset16 8 3 8 sb (maskset16 0 8 0 chnum old)))
        + 16384 * bnd
      ≡ packed chnum sb bw bnd
set_all old chnum sb bw bnd h h1 h2 h3 = omega arith

abbrev pub bw_field : ChanBw → ℕ
bw_field bw20 = 2
bw_field bw40 = 3
bw_field bw80 = 4
bw_field bw160 = 5
bw_field bw80p80 = 0

module _ (old : Chan) (chnum bnd : ℕ) (h : chnum < 256) where
  decode_bw20 :
      (sb : ChanSb)
      → is_valid bw20 sb ≡ true
      → old.chspec ≡ packed chnum (sb_field bw20 sb) (bw_field bw20) bnd
      → d11ac_decode_bw (decode_chnum old)
        ≡ record old { chnum = chnum; control_ch_num = control chnum bw20 sb; bw = bw20; sb = sb }
  decode_bw20 sb_none v e = ground arith
  decode_bw20 sb v e = cc

  decode_bw40 :
      (sb : ChanSb)
      → is_valid bw40 sb ≡ true
      → old.chspec ≡ packed chnum (sb_field bw40 sb) (bw_field bw40) bnd
      → d11ac_decode_bw (decode_chnum old)
        ≡ record old { chnum = chnum; control_ch_num = control chnum bw40 sb; bw = bw40; sb = sb }
  decode_bw40 sb_lll v e = ground arith
  decode_bw40 sb_llu v e = ground arith
  decode_bw40 sb v e = cc

  decode_bw80 :
      (sb : ChanSb)
      → is_valid bw80 sb ≡ true
      → old.chspec ≡ packed chnum (sb_field bw80 sb) (bw_field bw80) bnd
      → d11ac_decode_bw (decode_chnum old)
        ≡ record old { chnum = chnum; control_ch_num = control chnum bw80 sb; bw = bw80; sb = sb }
  decode_bw80 sb_lll v e = ground arith
  decode_bw80 sb_llu v e = ground arith
  decode_bw80 sb_lul v e = ground arith
  decode_bw80 sb_luu v e = ground arith
  decode_bw80 sb v e = cc

  decode_bw160 :
      (sb : ChanSb)
      → is_valid bw160 sb ≡ true
      → old.chspec ≡ packed chnum (sb_field bw160 sb) (bw_field bw160) bnd
      → d11ac_decode_bw (decode_chnum old)
        ≡ record old { chnum = chnum; control_ch_num = control chnum bw160 sb; bw = bw160; sb = sb }
  decode_bw160 sb_none v e = cc
  decode_bw160 sb v e = ground arith

abbrev pub bnd_field : ℕ → ℕ
bnd_field band = if band == band_6g then 1 else (if band == band_5g then 3 else 0)

bnd_field-d11ac_bnd : (band : ℕ) → d11ac_bnd band ≡ 16384 * bnd_field band
bnd_field-d11ac_bnd band = ground arith

sb_small : (b : Bool) (sb : ChanSb) → sb_number (if b || is_sb_none sb then sb_lll else sb) < 8
sb_small true sb = omega arith
sb_small false sb_none = omega arith
sb_small false sb = omega arith

sb_field_lem :
    (bw : ChanBw) (sb : ChanSb)
    → is_valid bw sb ≡ true
    → sb_number (if is_bw20 bw || is_sb_none sb then sb_lll else sb) ≡ sb_field bw sb
sb_field_lem bw20 sb v = refl
sb_field_lem bw40 sb_none v = cc
sb_field_lem bw40 sb v = refl
sb_field_lem bw80 sb_none v = cc
sb_field_lem bw80 sb v = refl
sb_field_lem bw160 sb_none v = cc
sb_field_lem bw160 sb v = refl
sb_field_lem bw80p80 sb v = cc

bw_field_lem : (bw : ChanBw) → (d11ac_bw bw ≡ 2048 * bw_field bw) × (bw_field bw < 8)
bw_field_lem bw20 = (refl, omega arith)
bw_field_lem bw = (refl, omega arith)

encoded :
    (ch : Chan)
    → ch.chspec < 2 ^ 16
    → ch.chnum < 256
    → is_valid ch.bw ch.sb ≡ true
    → (d11ac_encchspec ch).chspec
      ≡ packed ch.chnum (sb_field ch.bw ch.sb) (bw_field ch.bw) (bnd_field ch.band)
unfolding d11ac_encchspec
encoded ch h h' v =
    rw ((bw_field_lem ch.bw).0, bnd_field-d11ac_bnd ch.band)
      (set_all ch.chspec ch.chnum _ (bw_field ch.bw) (bnd_field ch.band) h h'
          (sb_small (is_bw20 ch.bw) ch.sb) (bw_field_lem ch.bw).1
        ∙ ap (λ s. packed ch.chnum s (bw_field ch.bw) (bnd_field ch.band))
            (sb_field_lem ch.bw ch.sb v))

decode_band :
    (ch : Chan) (chnum sb bw band : ℕ)
    → chnum < 256
    → sb < 8
    → bw < 8
    → band ≤ 2
    → ch.chspec ≡ packed chnum sb bw (bnd_field band)
    → d11ac_decode_band ch ≡ record ch { band = band }
decode_band ch chnum sb bw zero h h1 h2 b e = ground arith
decode_band ch chnum sb bw (suc zero) h h1 h2 b e = ground arith
decode_band ch chnum sb bw (suc (suc zero)) h h1 h2 b e = ground arith
decode_band ch chnum sb bw (suc (suc (suc band))) h h1 h2 b e = absurd (omega arith)

decode_bw :
    (old : Chan) (chnum bnd : ℕ) (bw : ChanBw) (sb : ChanSb)
    → chnum < 256
    → is_valid bw sb ≡ true
    → old.chspec ≡ packed chnum (sb_field bw sb) (bw_field bw) bnd
    → d11ac_decode_bw (decode_chnum old)
      ≡ record old { chnum = chnum; control_ch_num = control chnum bw sb; bw = bw; sb = sb }
decode_bw old chnum bnd bw20 sb h v e = decode_bw20 old chnum bnd h sb v e
decode_bw old chnum bnd bw40 sb h v e = decode_bw40 old chnum bnd h sb v e
decode_bw old chnum bnd bw80 sb h v e = decode_bw80 old chnum bnd h sb v e
decode_bw old chnum bnd bw160 sb h v e = decode_bw160 old chnum bnd h sb v e
decode_bw old chnum bnd bw80p80 sb h v e = cc

-- A channel of 20, 40, 80 or 160 MHz in a known band with a sideband of its width, encoded in the
-- 11ac layout over any old chspec, decodes to itself, from whatever the other fields held, with the
-- control channel that the sideband counts from the lower edge.
pub d11ac_decchspec-d11ac_encchspec :
    (ch old : Chan)
    → ch.chspec < 2 ^ 16
    → ch.chnum < 256
    → ch.band ≤ 2
    → is_valid ch.bw ch.sb ≡ true
    → old.chspec ≡ (d11ac_encchspec ch).chspec
    → d11ac_decchspec old
      ≡ record ch { chspec = old.chspec; control_ch_num = control ch.chnum ch.bw ch.sb }
unfolding d11ac_decchspec
d11ac_decchspec-d11ac_encchspec ch old h h' b v e =
    let e' = e ∙ encoded ch h h' v in
    ap d11ac_decode_band (decode_bw old ch.chnum (bnd_field ch.band) ch.bw ch.sb h' v e')
    ∙ decode_band _ ch.chnum (sb_field ch.bw ch.sb) (bw_field ch.bw) ch.band h'
        (rw⁻¹ (sb_field_lem ch.bw ch.sb v) (sb_small (is_bw20 ch.bw) ch.sb)) (bw_field_lem ch.bw).1
        b e'
