-- ===== src/Flowring/Peers/Change.antt =====
-- The two functions that close rings: a change of the address mode, and a peer that leaves.
use omdrop_awdl.Prelude.{
  ℕ, ◌<◌, ◌≡◌, ◌≢◌, refl, Bool, true, false, not, ◌&&◌, ◌||◌, some, update, if◌then◌else◌, arith,
  bool_eq,
}
use omdrop_awdl.Flowring.{
  Mac, mac_eq, HashEntry, AddrMode, is_indirect, hashsize, invalid_ifidx, is_open, FlowRing,
  Flowring,
}
use omdrop_awdl.Flowring.Table.{is_tdls_mac}
use omdrop_awdl.Flowring.Flow.Stop.{IsAccountable}
use omdrop_awdl.Flowring.Peers.{of_ifidx, configure_addr_mode, of_peer, delete_peer}
use omdrop_awdl.Prelude.{List}
use omdrop_awdl.Flowring.Flow.{ifidx_of}
use omdrop_awdl.Flowring.Peers.{is_empty, remove_tdls}
use omdrop_awdl.Flowring.Peers.Loop.{close_entries_lem, rings-closed}

-- The address modes and the peers play no part in the invariant.
pub peers-IsAccountable :
    (flow : Flowring) (addr_mode : ℕ → AddrMode) (active : Bool) (entries : List Mac)
    → IsAccountable flow
    → IsAccountable
        (record flow { addr_mode = addr_mode; tdls_active = active; tdls_entry = entries })
peers-IsAccountable flow addr_mode active entries v = record {
  linked = record {
    fits = v.linked.fits;
    listed = v.linked.listed;
    entered = v.linked.entered;
    cleared = v.linked.cleared;
  };
  reason = λ ifidx h.
      let w = v.reason ifidx h in
      record {
        id = w.id;
        ring = w.ring;
        id_in = w.id_in;
        present = w.present;
        is_blocked = w.is_blocked;
        owner = w.owner;
      };
}

-- A change of the address mode of an interface, from an accountable state, does not fault,
-- whichever requests can be written: it sets the mode, closes every open ring of the interface and
-- leaves the state accountable.
pub configure_addr_mode_closes :
    (submitted : ℕ → Bool) (flow : Flowring) (ifidx : ℕ) (addr_mode : AddrMode)
    → IsAccountable flow
    → ifidx ≢ invalid_ifidx
    → bool_eq (is_indirect (flow.addr_mode ifidx)) (is_indirect addr_mode) ≡ false
    → (flow' : Flowring) × (configure_addr_mode submitted flow ifidx addr_mode ≡ some flow')
      × IsAccountable flow'
      × (flow'.addr_mode ifidx ≡ addr_mode)
      × ((id : ℕ) (ring : FlowRing)
          → id < flow'.nrofrings
          → flow'.rings id ≡ some ring
          → ifidx_of flow' ring ≡ ifidx
          → is_open ring.status ≡ false)
unfolding configure_addr_mode
configure_addr_mode_closes submitted flow ifidx addr_mode v known differs =
    let test = of_ifidx ifidx in
    let fine : (e : HashEntry) → test e ≡ true → e.ifidx ≢ invalid_ifidx = λ e t. ground arith in
    let (flow1, e, v1, c) =
      close_entries_lem test fine submitted flow 0 hashsize (omega arith) v
        (λ j b. absurd (omega arith)) in
    (
      record flow1 { addr_mode = update flow1.addr_mode ifidx addr_mode },
      rw differs (rw e refl),
      peers-IsAccountable flow1 _ flow1.tdls_active flow1.tdls_entry v1,
      ground arith,
      λ id ring id_in there own.
          rings-closed test fine flow1 id ring v1 c id_in there (ground arith),
    )

of_peer-true : (sta same own : Bool) → same ≡ true → own ≡ true → ((sta || same) && own) ≡ true
of_peer-true sta same own h h' = ground arith

-- A peer that leaves, from an accountable state, does not fault, whichever requests can be written:
-- no ring of the peer on the interface stays open, and the state stays accountable.
pub delete_peer_closes :
    (submitted : ℕ → Bool) (flow : Flowring) (ifidx : ℕ) (peer : Mac)
    → IsAccountable flow
    → ifidx ≢ invalid_ifidx
    → (flow' : Flowring) × (delete_peer submitted flow ifidx peer ≡ some flow')
      × IsAccountable flow'
      × ((id : ℕ) (ring : FlowRing)
          → id < flow'.nrofrings
          → flow'.rings id ≡ some ring
          → ifidx_of flow' ring ≡ ifidx
          → mac_eq (flow'.hash ring.hash_id).mac peer ≡ true
          → is_open ring.status ≡ false)
unfolding delete_peer
delete_peer_closes submitted flow ifidx peer v known =
    let search : Bool = is_tdls_mac flow.tdls_entry peer in
    let sta : Bool = is_indirect (flow.addr_mode ifidx) && not search in
    let entries : List Mac = remove_tdls flow.tdls_entry peer in
    let test = of_peer sta peer ifidx in
    let fine : (e : HashEntry) → test e ≡ true → e.ifidx ≢ invalid_ifidx = λ e t. ground arith in
    let (flow1, e, v1, c) =
      close_entries_lem test fine submitted flow 0 hashsize (omega arith) v
        (λ j b. absurd (omega arith)) in
    let closed : (id : ℕ) (ring : FlowRing)
        → id < flow1.nrofrings
        → flow1.rings id ≡ some ring
        → ifidx_of flow1 ring ≡ ifidx
        → mac_eq (flow1.hash ring.hash_id).mac peer ≡ true
        → is_open ring.status ≡ false =
      λ id ring id_in there own same.
        rings-closed test fine flow1 id ring v1 c id_in there
          (of_peer-true sta _ _ same (ground arith)) in
    (
      record flow1 {
        tdls_entry = if search then entries else flow1.tdls_entry;
        tdls_active = if search && is_empty entries then false else flow1.tdls_active;
      },
      rw e refl,
      peers-IsAccountable flow1 flow1.addr_mode _ _ v1,
      closed,
    )
