-- ===== src/D11.antt =====
-- brcmutil/d11.c and include/brcmu_d11.h: the chanspec, the 16-bit form of a channel that the
-- firmware reads, in its 11n and its 11ac layout.
pub mod Encode
pub mod Decode
pub mod Sideband
pub mod Ht
pub mod Vht
use omdrop_awdl.Prelude.{ℕ, ◌+◌, ◌-◌, ◌*◌, ◌/◌, ◌%◌, ◌^◌, u16}

-- The chanspec masks cover the bits from `lo` on, `width` of them. `value & mask`:
abbrev pub in_mask : ℕ → ℕ → ℕ → ℕ
in_mask lo width value = value / 2 ^ lo % 2 ^ width * 2 ^ lo

-- `value & ~mask`
abbrev pub off_mask : ℕ → ℕ → ℕ → ℕ
off_mask lo width value = value - in_mask lo width value

-- brcmu_maskset16: the two sides of its `|` have no bit in common, and are added.
abbrev pub maskset16 : ℕ → ℕ → ℕ → ℕ → ℕ → ℕ
maskset16 lo width shift value var =
    off_mask lo width var + in_mask lo width (u16 (value * 2 ^ shift))

-- brcmu_maskget16
abbrev pub maskget16 : ℕ → ℕ → ℕ → ℕ → ℕ
maskget16 lo width shift var = in_mask lo width var / 2 ^ shift

pub data ChanBw : Type 0 where
  bw20 bw40 bw80 bw80p80 bw160 : ChanBw

-- BRCMU_CHAN_SB_NONE and the others; L and LL are LLL, U and LU are LLU, UL is LUL, UU is LUU.
pub data ChanSb : Type 0 where
  sb_none sb_lll sb_llu sb_lul sb_luu sb_ull sb_ulu sb_uul sb_uuu : ChanSb

-- `struct brcmu_chan`
pub record Chan : Type 0 where
  pub chspec : ℕ
  pub chnum : ℕ
  pub control_ch_num : ℕ
  pub band : ℕ
  pub bw : ChanBw
  pub sb : ChanSb

-- BRCMU_CHAN_BAND_2G, _5G and _6G.
abbrev pub band_2g : ℕ
band_2g = 0

abbrev pub band_5g : ℕ
band_5g = 1

abbrev pub band_6g : ℕ
band_6g = 2

abbrev pub ch_max_2g_channel : ℕ
ch_max_2g_channel = 14

-- CH_10MHZ_APART, CH_30MHZ_APART, CH_50MHZ_APART and CH_70MHZ_APART.
abbrev pub apart_10mhz : ℕ
apart_10mhz = 2

abbrev pub apart_30mhz : ℕ
apart_30mhz = 6

abbrev pub apart_50mhz : ℕ
apart_50mhz = 10

abbrev pub apart_70mhz : ℕ
apart_70mhz = 14
