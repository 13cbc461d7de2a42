-- ===== src/D11/Sideband.antt =====
-- Widths and sidebands: which go together, and where the control channel lies.
use omdrop_awdl.Prelude.{ℕ, ◌+◌, ◌-◌, ◌*◌, ◌^◌, Bool, false, ltb, u8}
use omdrop_awdl.D11.{ChanBw, bw20, bw40, bw80, bw80p80, bw160, ChanSb}
use omdrop_awdl.D11.Encode.{is_sb_none, sb_number}

-- Half of the width, in channel numbers of 5 MHz.
abbrev pub half_width : ChanBw → ℕ
half_width bw20 = 2
half_width bw40 = 4
half_width bw80 = 8
half_width bw80p80 = 0
half_width bw160 = 16

-- The sidebands of a width: none at 20 MHz, and one for each 20 MHz above.
abbrev pub is_valid : ChanBw → ChanSb → Bool
is_valid bw20 sb = is_sb_none sb
is_valid bw80p80 sb = false
is_valid bw sb = ltb (2 * sb_number sb) (half_width bw)

abbrev pub sb_field : ChanBw → ChanSb → ℕ
sb_field bw20 sb = 0
sb_field bw sb = sb_number sb

-- The control channel is the 20 MHz channel that the sideband counts from the lower edge.
abbrev pub control : ℕ → ChanBw → ChanSb → ℕ
control chnum bw sb = u8 (chnum + 2 ^ 8 + 2 + 4 * sb_field bw sb - half_width bw)
