-- ===== src/D11/Decode.antt =====
-- brcmutil/d11.c: from a chanspec to the channel. What is unknown leaves the field as it was.
use omdrop_awdl.Prelude.{ℕ, ◌+◌, ◌==◌, u8, sub8, if◌then◌else◌}
use omdrop_awdl.D11.{
  in_mask, maskget16, bw20, bw40, bw80, bw160, ChanSb, sb_none, sb_lll, sb_llu, sb_lul, sb_luu,
  sb_ull, sb_ulu, sb_uul, sb_uuu, Chan, band_2g, band_5g, band_6g, apart_10mhz, apart_30mhz,
  apart_50mhz, apart_70mhz,
}

-- `ch->control_ch_num -= apart` and `+= apart`, on a `u8`.
abbrev pub lower_by : ℕ → Chan → Chan
lower_by apart ch = record ch { control_ch_num = sub8 ch.control_ch_num apart }

abbrev pub raise_by : ℕ → Chan → Chan
raise_by apart ch = record ch { control_ch_num = u8 (ch.control_ch_num + apart) }

-- The first lines of both: the channel number.
abbrev pub decode_chnum : Chan → Chan
decode_chnum ch = record ch {
  chnum = u8 (in_mask 0 8 ch.chspec);
  control_ch_num = u8 (in_mask 0 8 ch.chspec);
}

abbrev pub d11n_decode_bw : Chan → Chan
d11n_decode_bw ch =
    let bw : ℕ = in_mask 10 2 ch.chspec in
    if bw == 0x0800
    then record ch { bw = bw20; sb = sb_none }
    else (if bw == 0x0c00
        then (if in_mask 8 2 ch.chspec == 0x0100
            then lower_by apart_10mhz (record ch { bw = bw40; sb = sb_lll })
            else raise_by apart_10mhz (record ch { bw = bw40; sb = sb_llu }))
        else ch)

abbrev pub d11n_decode_band : Chan → Chan
d11n_decode_band ch =
    let bnd : ℕ = in_mask 12 2 ch.chspec in
    if bnd == 0x1000
    then record ch { band = band_5g }
    else (if bnd == 0x2000 then record ch { band = band_2g } else ch)

unfoldable pub d11n_decchspec : Chan → Chan
d11n_decchspec ch = d11n_decode_band (d11n_decode_bw (decode_chnum ch))

-- The sideband with this number, which is below 8.
abbrev pub sb_numbered : ℕ → ChanSb
sb_numbered n =
    if n == 0
    then sb_lll
    else (if n == 1
        then sb_llu
        else (if n == 2
            then sb_lul
            else (if n == 3
                then sb_luu
                else (if n == 4
                    then sb_ull
                    else (if n == 5 then sb_ulu else (if n == 6 then sb_uul else sb_uuu))))))

-- The inner switch at 80 MHz.
abbrev pub d11ac_control80 : Chan → Chan
d11ac_control80 ch = elim ch.sb [
  | sb_lll ↦ lower_by apart_30mhz ch
  | sb_llu ↦ lower_by apart_10mhz ch
  | sb_lul ↦ raise_by apart_10mhz ch
  | sb_luu ↦ raise_by apart_30mhz ch
  | _ ↦ ch
]

-- The inner switch at 160 MHz.
abbrev pub d11ac_control160 : Chan → Chan
d11ac_control160 ch = elim ch.sb [
  | sb_lll ↦ lower_by apart_70mhz ch
  | sb_llu ↦ lower_by apart_50mhz ch
  | sb_lul ↦ lower_by apart_30mhz ch
  | sb_luu ↦ lower_by apart_10mhz ch
  | sb_ull ↦ raise_by apart_10mhz ch
  | sb_ulu ↦ raise_by apart_30mhz ch
  | sb_uul ↦ raise_by apart_50mhz ch
  | sb_uuu ↦ raise_by apart_70mhz ch
  | sb_none ↦ ch
]

-- The inner test at 40 MHz.
abbrev pub d11ac_control40 : Chan → Chan
d11ac_control40 ch =
    let val : ℕ = in_mask 8 3 ch.chspec in
    if val == 0
    then lower_by apart_10mhz (record ch { sb = sb_lll })
    else (if val == 0x0100 then raise_by apart_10mhz (record ch { sb = sb_llu }) else ch)

abbrev pub d11ac_decode_bw : Chan → Chan
d11ac_decode_bw ch =
    let bw : ℕ = in_mask 11 3 ch.chspec in
    let sb : ChanSb = sb_numbered (maskget16 8 3 8 ch.chspec) in
    if bw == 0x1000
    then record ch { bw = bw20; sb = sb_none }
    else (if bw == 0x1800
        then d11ac_control40 (record ch { bw = bw40 })
        else (if bw == 0x2000
            then d11ac_control80 (record ch { bw = bw80; sb = sb })
            else (if bw == 0x2800
                then d11ac_control160 (record ch { bw = bw160; sb = sb })
                else ch)))

abbrev pub d11ac_decode_band : Chan → Chan
d11ac_decode_band ch =
    let bnd : ℕ = in_mask 14 2 ch.chspec in
    if bnd == 0x4000
    then record ch { band = band_6g }
    else (if bnd == 0xc000
        then record ch { band = band_5g }
        else (if bnd == 0 then record ch { band = band_2g } else ch))

unfoldable pub d11ac_decchspec : Chan → Chan
d11ac_decchspec ch = d11ac_decode_band (d11ac_decode_bw (decode_chnum ch))
