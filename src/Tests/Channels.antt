-- ===== src/Tests/Channels.antt =====
-- The chanspecs of brcmutil/d11.c.
use omdrop_awdl.Prelude.{◌≡◌, refl, arith}
use omdrop_awdl.D11.{Chan, bw40, bw80, sb_lll, sb_lul}
use omdrop_awdl.D11.Encode.{d11n_encchspec, d11ac_encchspec}
use omdrop_awdl.D11.Decode.{d11n_decchspec, d11ac_decchspec}
use omdrop_awdl.D11.Ht.{d11n_decchspec-d11n_encchspec}
use omdrop_awdl.D11.Vht.{d11ac_decchspec-d11ac_encchspec}

-- The 80 MHz channel around 42, whose control channel is 44.
abbrev center_42 : Chan
center_42 = record {
  chspec = 0x1234;
  chnum = 42;
  control_ch_num = 0;
  band = 1;
  bw = bw80;
  sb = sb_lul;
}

code_42 : (d11ac_encchspec center_42).chspec ≡ 0xe22a
unfolding d11ac_encchspec
code_42 = refl

d11ac_decchspec-d11ac_encchspec_example :
    d11ac_decchspec (d11ac_encchspec center_42)
    ≡ record center_42 { chspec = (d11ac_encchspec center_42).chspec; control_ch_num = 44 }
d11ac_decchspec-d11ac_encchspec_example =
    d11ac_decchspec-d11ac_encchspec center_42 (d11ac_encchspec center_42) (omega arith)
      (omega arith) (omega arith) refl refl

-- The 40 MHz channel around 3, whose control channel is 1.
abbrev center_3 : Chan
center_3 = record { chspec = 0; chnum = 3; control_ch_num = 0; band = 0; bw = bw40; sb = sb_lll }

d11n_decchspec-d11n_encchspec_example :
    d11n_decchspec (d11n_encchspec center_3)
    ≡ record center_3 { chspec = (d11n_encchspec center_3).chspec; control_ch_num = 1; band = 0 }
d11n_decchspec-d11n_encchspec_example =
    d11n_decchspec-d11n_encchspec center_3 (d11n_encchspec center_3) (omega arith) refl refl refl
