-- ===== src/D11/Encode.antt =====
-- brcmutil/d11.c: from a channel to its chanspec.
use omdrop_awdl.Prelude.{ℕ, ◌+◌, Bool, true, false, ◌==◌, leb, ◌||◌, if◌then◌else◌}
use omdrop_awdl.D11.{
  off_mask, maskset16, ChanBw, bw20, bw40, bw80, bw80p80, bw160, ChanSb, sb_none, sb_lll, sb_llu,
  sb_lul, sb_luu, sb_ull, sb_ulu, sb_uul, sb_uuu, Chan, band_5g, band_6g, ch_max_2g_channel,
}

abbrev pub d11n_sb : ChanSb → ℕ
d11n_sb sb_none = 0x0300
d11n_sb sb_lll = 0x0100
d11n_sb sb_llu = 0x0200
d11n_sb _ = 0

abbrev pub d11n_bw : ChanBw → ℕ
d11n_bw bw20 = 0x0800
d11n_bw bw40 = 0x0c00
d11n_bw _ = 0

abbrev pub is_bw20 : ChanBw → Bool
is_bw20 bw20 = true
is_bw20 _ = false

abbrev pub is_sb_none : ChanSb → Bool
is_sb_none sb_none = true
is_sb_none _ = false

unfoldable pub d11n_encchspec : Chan → Chan
d11n_encchspec ch =
    let sb : ChanSb = if is_bw20 ch.bw then sb_none else ch.sb in
    let with_ch : ℕ = maskset16 0 8 0 ch.chnum 0 in
    let with_sb : ℕ = maskset16 8 2 0 (d11n_sb sb) with_ch in
    let with_bw : ℕ = maskset16 10 2 0 (d11n_bw ch.bw) with_sb in
    let bnd : ℕ = if leb ch.chnum ch_max_2g_channel then 0x2000 else 0x1000 in
    record ch { sb = sb; chspec = with_bw + bnd }

abbrev pub d11ac_bw : ChanBw → ℕ
d11ac_bw bw20 = 0x1000
d11ac_bw bw40 = 0x1800
d11ac_bw bw80 = 0x2000
d11ac_bw bw160 = 0x2800
d11ac_bw bw80p80 = 0

-- The number of the enumeration; BRCMU_CHAN_SB_NONE, -1, is replaced before it is used.
abbrev pub sb_number : ChanSb → ℕ
sb_number sb_none = 0xffff
sb_number sb_lll = 0
sb_number sb_llu = 1
sb_number sb_lul = 2
sb_number sb_luu = 3
sb_number sb_ull = 4
sb_number sb_ulu = 5
sb_number sb_uul = 6
sb_number sb_uuu = 7

-- The bits of the band, which the code sets where they have been cleared.
abbrev pub d11ac_bnd : ℕ → ℕ
d11ac_bnd band = if band == band_6g then 0x4000 else (if band == band_5g then 0xc000 else 0)

unfoldable pub d11ac_encchspec : Chan → Chan
d11ac_encchspec ch =
    let sb : ChanSb = if is_bw20 ch.bw || is_sb_none ch.sb then sb_lll else ch.sb in
    let with_ch : ℕ = maskset16 0 8 0 ch.chnum ch.chspec in
    let with_sb : ℕ = maskset16 8 3 8 (sb_number sb) with_ch in
    let with_bw : ℕ = maskset16 11 3 0 (d11ac_bw ch.bw) with_sb in
    record ch { sb = sb; chspec = off_mask 14 2 with_bw + d11ac_bnd ch.band }
