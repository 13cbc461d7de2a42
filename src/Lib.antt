-- ===== src/Lib.antt =====
-- The brcmfmac driver of kernel/drivers/net/wireless/broadcom/brcm80211 (below: the driver): the
-- parts that carry its own logic as functions, with the properties that make them correct.
--
-- The driver moves packets between the network stack and the firmware of a radio. On PCIe the two
-- share rings in memory: the host writes requests to submission rings and reads answers from
-- completion rings, each side publishing its index through mailboxes. On top of the rings, the flow
-- rings queue the packets for each destination and traffic class, the packet ids name the packets
-- that the firmware holds, and the reading loop drains the completion rings. The buses without shared
-- rings queue packets by precedence. Channels cross the boundary as 16-bit chanspecs.
--
--   Commonring.antt, Commonring/      brcmfmac/commonring.c: config, write_available, the two
--                                     reservations, write_complete, write_cancel, get_read_ptr,
--                                     read_complete. The bus callbacks are a record of functions on
--                                     a state of the bus.
--   Pcie.antt, Pcie/                  brcmfmac/pcie.c: brcmf_pcie_ring_mb_*, the callbacks with the
--                                     indices in memory that the device shares, and the sequences
--                                     of steps of host and device on one ring.
--   Flowring.antt                     brcmfmac/flowring.h: the flow rings and their hash table.
--   Flowring/Table.antt, Table/       brcmfmac/flowring.c: attach, lookup, create.
--   Flowring/Flow.antt, Flow/         the same file: block, enqueue, dequeue, reinsert, delete,
--                                     qlen, open (open_ring), tid, ifidx_get.
--   Flowring/Peers.antt, Peers/       the same file: configure_addr_mode, delete_peer,
--                                     add_tdls_peer, with brcmf_msgbuf_delete_flowring of msgbuf.c.
--   Flowring/Calls.antt, Life.antt    every sequence of these calls.
--   Msgbuf/Rx.antt, Rx/               brcmfmac/msgbuf.c: brcmf_msgbuf_process_rx.
--   Msgbuf/Pktids.antt, Pktids/       the same file: init_pktids, alloc_pktid, get_pktid,
--                                     release_array.
--   Msgbuf/Tx.antt, Tx/               the same file: brcmf_msgbuf_tx_queue_data, schedule_txdata,
--                                     txflow with its worker, flowring_create with the worker that
--                                     asks the firmware for the ring, remove_flowring.
--   Msgbuf/Post.antt, Post/           the same file: brcmf_msgbuf_rxbuf_*, which give the device its
--                                     receive buffers, and update_rxbufpost_count.
--   Msgbuf/Completions.antt,          the same file: brcmf_msgbuf_process_txstatus, the responses
--   Completions/                      about flow rings, the end of brcmf_proto_msgbuf_rx_trigger.
--   Pktq.antt, Pktq/                  brcmutil/utils.c: brcmu_pktq_*.
--   D11.antt, D11/                    brcmutil/d11.c: the two layouts of a chanspec.
--   Firmware/Nvram.antt, Nvram/       brcmfmac/firmware.c: the parser of NVRAM files.
--   Firmware/Strip.antt, Strip/       the same file: brcmf_fw_nvram_strip with brcmf_fw_strip_multi_v1
--                                     and _v2, brcmf_fw_add_defaults, brcmf_fw_add_macaddr.
--   Fwsignal/Hanger.antt, Hanger/     brcmfmac/fwsignal.c: brcmf_fws_hanger_*.
--   Fwsignal/Credits.antt, Credits/   the same file: brcmf_fws_borrow_credit, return_credits and
--                                     fifocreditback_indicate.
--   Fwsignal/Reorder.antt, Reorder/   the same file: brcmf_rxreorder_get_skb_list and
--                                     brcmf_fws_rxreorder, which put AMPDU packets in order.
--   Fwsignal/Signals.antt, Signals/   the same file: brcmf_fws_hdrpull. The handlers of the signals
--                                     are a record of functions, of which Credits has one.
--   Fwsignal/Macdesc.antt, Macdesc/   the same file: brcmf_fws_macdesc_indicate, with the lookup and
--                                     the flush of a queue.
--   Xtlv.antt, Xtlv/                  brcmfmac/xtlv.c: the sizes and the packing of an entry.
--   Prelude.antt, Prelude/            shared names, lists, machine words, tests.
--   Tests.antt, Tests/                runs on small inputs, and the theorems at concrete inputs.
--
-- A function keeps the name of its C function without the prefix (brcmf_commonring_, brcmf_flowring_,
-- brcmu_pktq_, brcmf_msgbuf_, brcmu_). State is passed along as a record with the fields of the
-- struct; a pointer that is NULL or an index out of an array is a fault, `none`, where the code would
-- follow it. Unsigned words wrap around as they are stored. An array is a list or, where its length
-- plays no part, a function from the index. Loops are structural recursion on the number of rounds
-- that the C loop counts, or on the bytes that are left. Seven loops have none and run on fuel, with a
-- proof that it is enough: two units for the outer loop of process_rx, five for each byte and four
-- more for the parser, one for each item in the search of get_free_slot, one for each packet of the
-- queue and one more in txflow, one for each missing buffer and one more in rxbuf_data_fill, one
-- for each byte of the header and one more in hdrpull, and 256 in get_skb_list, where a loop that goes on for longer never ends.
--
-- Not modelled: locks (each operation runs as a whole, and interleavings are sequences of
-- operations), the memory of the kernel except where an allocation fails, the contents of packets and
-- messages, the buses themselves, the callbacks of the wireless stack, and the scripts of userspace/.
pub mod Prelude
pub mod Commonring
pub mod Pcie
pub mod Flowring
pub mod Msgbuf
pub mod Pktq
pub mod D11
pub mod Firmware
pub mod Fwsignal
pub mod Xtlv
mod Tests
