-- ===== src/Flowring/Peers.antt =====
-- flowring.c: peers that come and go, and the address mode. The rings of a peer are closed through
-- brcmf_msgbuf_delete_flowring of msgbuf.c, whose effect on the flow rings stands here too.
pub mod Closing
pub mod Loop
pub mod Change
use omdrop_awdl.Prelude.{
  ℕ, zero, suc, ◌+◌, Bool, true, false, not, ◌&&◌, ◌||◌, Option, none, some, List, [], ◌∷◌, ◌++◌,
  ◌==◌, bool_eq, update, if◌then◌else◌, ◌>>=◌,
}
use omdrop_awdl.Flowring.{
  Mac, mac_eq, hashsize, HashEntry, closing, is_open, AddrMode, is_indirect, FlowRing, Flowring,
  ring_at, set_ring,
}
use omdrop_awdl.Flowring.Table.{is_tdls_mac}
use omdrop_awdl.Flowring.Flow.{delete}

-- brcmf_msgbuf_delete_flowring: the ring is closing until the firmware answers; it is removed at
-- once if no request can be written, when the bus is down or the control ring is full. `submitted`
-- says which. The wait for outstanding packets does not touch the flow rings.
unfoldable pub delete_flowring : Bool → Flowring → ℕ → Option Flowring
delete_flowring submitted flow flowid = do
  ring ← ring_at flow flowid
  let flow1 = set_ring flow flowid (record ring { status = closing })
  if submitted then some flow1 else delete flow1 flowid

-- The ring behind entry `i` of the table, if it passes the test and its ring is open.
unfoldable pub close_entry : (HashEntry → Bool) → (ℕ → Bool) → Flowring → ℕ → Option Flowring
close_entry test submitted flow i =
    let flowid : ℕ = (flow.hash i).flowid in
    if not (test (flow.hash i))
    then some flow
    else ring_at flow flowid >>= λ ring.
        if is_open ring.status then delete_flowring (submitted flowid) flow flowid else some flow

-- The loop over the table from entry `i` on, `left` of them.
unfoldable pub close_entries : (HashEntry → Bool) → (ℕ → Bool) → Flowring → ℕ → ℕ → Option Flowring
close_entries test submitted flow i zero = some flow
close_entries test submitted flow i (suc left) = do
  flow1 ← close_entry test submitted flow i
  close_entries test submitted flow1 (i + 1) left

abbrev pub of_ifidx : ℕ → HashEntry → Bool
of_ifidx ifidx e = e.ifidx == ifidx

unfoldable pub configure_addr_mode : (ℕ → Bool) → Flowring → ℕ → AddrMode → Option Flowring
configure_addr_mode submitted flow ifidx addr_mode =
    if bool_eq (is_indirect (flow.addr_mode ifidx)) (is_indirect addr_mode) then some flow else do
      flow1 ← close_entries (of_ifidx ifidx) submitted flow 0 hashsize
      some (record flow1 { addr_mode = update flow1.addr_mode ifidx addr_mode })

-- The first entry of the list with this address is unlinked.
unfoldable pub remove_tdls : List Mac → Mac → List Mac
remove_tdls [] peer = []
remove_tdls (entry ∷ entries) peer =
    let rest : List Mac = remove_tdls entries peer in
    if mac_eq entry peer then entries else entry ∷ rest

abbrev pub is_empty : List Mac → Bool
is_empty [] = true
is_empty (entry ∷ entries) = false

abbrev pub of_peer : Bool → Mac → ℕ → HashEntry → Bool
of_peer sta peer ifidx e = (sta || mac_eq e.mac peer) && (e.ifidx == ifidx)

unfoldable pub delete_peer : (ℕ → Bool) → Flowring → ℕ → Mac → Option Flowring
delete_peer submitted flow ifidx peer =
    let search : Bool = is_tdls_mac flow.tdls_entry peer in
    let sta : Bool = is_indirect (flow.addr_mode ifidx) && not search in
    let entries : List Mac = remove_tdls flow.tdls_entry peer in
    close_entries (of_peer sta peer ifidx) submitted flow 0 hashsize >>= λ flow1.
    some (record flow1 {
      tdls_entry = if search then entries else flow1.tdls_entry;
      tdls_active = if search && is_empty entries then false else flow1.tdls_active;
    })

-- `kzalloc` says whether the allocation of the entry succeeds.
unfoldable pub add_tdls_peer : Bool → Flowring → Mac → Flowring
add_tdls_peer kzalloc flow peer =
    if not kzalloc
    then flow
    else (if is_tdls_mac flow.tdls_entry peer
        then flow
        else record flow { tdls_entry = flow.tdls_entry ++ (peer ∷ []); tdls_active = true })
