-- ===== src/Tests/Ids.antt =====
-- The packet ids of msgbuf.c.
use omdrop_awdl.Prelude.{◌≡◌, refl, some, arith}
use omdrop_awdl.Msgbuf.Pktids.{Pktids, init_pktids, alloc_pktid, find_free, fill, release_array}
use omdrop_awdl.Msgbuf.Pktids.Ledger.{here, step, allocs, reached-IsSound, Reach-mapped, in_use}
use omdrop_awdl.Msgbuf.Pktids.Use.{IsAlloc, alloc_pktid-get_pktid}

-- Four ids, one of them for packet 50.
abbrev pub four : Pktids
four = (alloc_pktid (init_pktids 4) 50 0 (some 4096)).1

pub four_given : (alloc_pktid (init_pktids 4) 50 0 (some 4096)).0 ≡ some 1
unfolding alloc_pktid init_pktids find_free fill
four_given = refl

Reach-mapped_example :
    (four.mapped ≡ in_use four.array four.array_size) × ((release_array four).1 ≡ 0)
Reach-mapped_example =
    Reach-mapped 4 four (omega arith) (omega arith) (step here (allocs 50 0 (some 4096)))

alloc_pktid-get_pktid_example : IsAlloc four 51 (alloc_pktid four 51 0 (some 8192))
alloc_pktid-get_pktid_example =
    alloc_pktid-get_pktid four 51 0 8192
      (reached-IsSound 4 four (omega arith) (omega arith) (step here (allocs 50 0 (some 4096))))
