-- ===== src/Flowring/Calls.antt =====
-- flowring.c: each call, whatever its arguments.
use mathlib.Core.Option.{some-injective, none-ne-some}
use omdrop_awdl.Prelude.{
  ℕ, ◌≡◌, ◌≢◌, refl, Bool, true, not, Option, none, some, ◌∷◌, ltb, bool_eq, arith, Bool-cases,
  Option-cases, inl, inr, ◌∙◌, ap, sym, ◌>>=◌, if_keeps, ◌⊎◌,
}
use omdrop_awdl.Flowring.{
  Mac, Skb, AddrMode, is_indirect, invalid_ifidx, opened, is_open, FlowRing, Flowring, ring_at,
  ring_slot, set_ring,
}
use omdrop_awdl.Flowring.Table.{Key, is_free, add_ring, create, is_tdls_mac}
use omdrop_awdl.Flowring.Table.Linked.{IsLinked, create-IsLinked, create-cases, Created}
use omdrop_awdl.Flowring.Flow.{
  enqueue, dequeue, reinsert, delete, delete_ring, open_slot, open_ring,
}
use omdrop_awdl.Flowring.Flow.Stop.{IsAccountable, Blocker, set_ring-IsAccountable, ring_at-some}
use omdrop_awdl.Flowring.Flow.Queues.{enqueue-IsAccountable, dequeue-IsAccountable}
use omdrop_awdl.Flowring.Flow.Removal.{delete-IsAccountable}
use omdrop_awdl.Flowring.Peers.{delete_flowring, configure_addr_mode, delete_peer, add_tdls_peer}
use omdrop_awdl.Flowring.Peers.Closing.{delete_flowring_lem, free_ifidx}
use omdrop_awdl.Flowring.Peers.Change.{
  peers-IsAccountable, configure_addr_mode_closes, delete_peer_closes,
}

-- A result is what it was shown to be.
result-IsAccountable :
    {o : Option Flowring} (flow flow' : Flowring)
    → o ≡ some flow
    → o ≡ some flow'
    → IsAccountable flow
    → IsAccountable flow'
result-IsAccountable flow flow' e e' v = rw (some-injective flow flow' (sym e ∙ e')) at v

paired-IsAccountable {ℓ} :
    {A : Type ℓ} {o : Option (A × Flowring)} (a a' : A) (flow flow' : Flowring)
    → o ≡ some (a, flow)
    → o ≡ some (a', flow')
    → IsAccountable flow
    → IsAccountable flow'
paired-IsAccountable a a' flow flow' e e' v =
    rw (ap (λ p. p.1) (some-injective (a, flow) (a', flow') (sym e ∙ e'))) at v

-- A new ring takes no blocker's place.
Blocker-added :
    (flow : Flowring) (k : Key) (entry id ifidx : ℕ)
    → IsLinked flow
    → is_free (flow.hash entry) ≡ true
    → flow.rings id ≡ none
    → Blocker flow ifidx
    → Blocker (add_ring flow k entry id) ifidx
unfolding add_ring
Blocker-added flow k entry id ifidx v free unused w =
    let old = v.entered w.id w.ring w.id_in w.present in
    let apart : entry ≢ w.ring.hash_id =
      λ same. old.1 (free_ifidx (flow.hash w.ring.hash_id) (rw same at free)) in
    record {
      id = w.id;
      ring = w.ring;
      id_in = w.id_in;
      present = ground (arith, w.present);
      is_blocked = w.is_blocked;
      owner = ground (arith, w.owner);
    }

add_ring-IsAccountable :
    (flow : Flowring) (k : Key) (id : ℕ) (flow' : Flowring)
    → IsAccountable flow
    → IsLinked flow'
    → Created flow k id flow'
    → IsAccountable flow'
add_ring-IsAccountable flow k id flow' v linked' c = record {
  linked = linked';
  reason = λ ifidx h. rw c.added (
      Blocker-added flow k c.entry id ifidx v.linked c.entry_free c.unused
        (v.reason ifidx (unfold add_ring in (rw c.added at h))));
}

pub create-IsAccountable :
    (kzalloc : Bool) (flow : Flowring) (da : Mac) (prio ifidx : ℕ)
    → ifidx ≢ invalid_ifidx
    → IsAccountable flow
    → IsAccountable (create kzalloc flow da prio ifidx).1
create-IsAccountable kzalloc flow da prio ifidx known v =
    elim (create-cases kzalloc flow da prio ifidx v.linked.fits) [
      | inl (_, same) ↦ rw same v
      | inr c ↦
          add_ring-IsAccountable flow _ _ _ v
            (create-IsLinked kzalloc flow da prio ifidx known v.linked) c
    ]

-- What a call on a NULL ring would do.
faulted {ℓ} :
    {A B : Type ℓ} {o : Option A} (f : A → Option B) (b : B) → o ≡ none → ¬ ((o >>= f) ≡ some b)
faulted f b gone e = none-ne-some b (sym (ap (λ o. o >>= f) gone) ∙ e)

-- The array is left, or the entry is NULL, or there is a ring.
slot-cases :
    (flow : Flowring) (id : ℕ)
    → (ring_slot flow id ≡ none)
      ⊎ (ring_slot flow id ≡ some none)
      ⊎ ((ring : FlowRing) × (ring_slot flow id ≡ some (some ring)) × (ring_at flow id ≡ some ring))
slot-cases flow id = elim (Bool-cases (ltb id flow.nrofrings)) [
  | inr e ↦ inl (rw e refl)
  | inl e ↦ elim (Option-cases (flow.rings id)) [
    | inl gone ↦ inr (inl (ground arith))
    | inr (ring, there) ↦ inr (inr (ring, ground arith, ground arith))
  ]
]

module _ (flow : Flowring) (id : ℕ) (flow' : Flowring) (v : IsAccountable flow) where
  pub reinsert-IsAccountable : (skb : Skb) → reinsert flow id skb ≡ some flow' → IsAccountable flow'
  unfolding reinsert
  reinsert-IsAccountable skb e = elim (Option-cases (ring_at flow id)) [
    | inl gone ↦ absurd (faulted _ flow' gone e)
    | inr (ring, at) ↦
        let ring1 : FlowRing = record ring { skblist = skb ∷ ring.skblist } in
        let there = (ring_at-some flow id ring at).1 in
        result-IsAccountable (set_ring flow id ring1) flow' refl (rw at at e)
          (set_ring-IsAccountable flow id ring there ring1 refl (λ b. b) v)
  ]

  pub open_ring-IsAccountable : open_ring flow id ≡ some flow' → IsAccountable flow'
  unfolding open_ring
  open_ring-IsAccountable e = elim (slot-cases flow id) [
    | inl gone ↦ absurd (faulted _ flow' gone e)
    | inr (inl null) ↦ result-IsAccountable flow flow' refl (unfold open_slot in rw null at e) v
    | inr (inr (ring, slot, at)) ↦
        let ring1 : FlowRing = record ring { status = opened } in
        let there = (ring_at-some flow id ring at).1 in
        result-IsAccountable (set_ring flow id ring1) flow' refl (unfold open_slot in rw slot at e)
          (set_ring-IsAccountable flow id ring there ring1 refl (λ b. b) v)
  ]

  pub enqueued-IsAccountable :
      (n : ℕ) (skb : Skb) → enqueue flow id skb ≡ some (n, flow') → IsAccountable flow'
  enqueued-IsAccountable n skb e = elim (Option-cases (ring_at flow id)) [
    | inl gone ↦ absurd (unfold enqueue in faulted _ (n, flow') gone e)
    | inr (ring, at) ↦
        let (flow1, e1, v1, _) = enqueue-IsAccountable flow id ring skb at v in
        paired-IsAccountable _ n flow1 flow' e1 e v1
  ]

  pub dequeued-IsAccountable :
      (skb : Option Skb) → dequeue flow id ≡ some (skb, flow') → IsAccountable flow'
  dequeued-IsAccountable skb e = elim (Option-cases (ring_at flow id)) [
    | inl gone ↦ absurd (unfold dequeue in faulted _ (skb, flow') gone e)
    | inr (ring, at) ↦ elim (Bool-cases (is_open ring.status)) [
      | inl o ↦
          let (flow1, e1, v1, _) = dequeue-IsAccountable flow id ring at o v in
          paired-IsAccountable _ skb flow1 flow' e1 e v1
      | inr shut ↦
          paired-IsAccountable none skb flow flow' refl (unfold dequeue in rw (at, shut) at e) v
    ]
  ]

  pub deleted-IsAccountable : delete flow id ≡ some flow' → IsAccountable flow'
  deleted-IsAccountable e = elim (slot-cases flow id) [
    | inl gone ↦ absurd (unfold delete in faulted _ flow' gone e)
    | inr (inl null) ↦
        result-IsAccountable flow flow' refl (unfold delete delete_ring in rw null at e) v
    | inr (inr (ring, slot, at)) ↦
        let (flow1, e1, v1, _, _, _, _, _) = delete-IsAccountable flow id ring at v in
        result-IsAccountable flow1 flow' e1 e v1
  ]

  pub closed-IsAccountable :
      (submitted : Bool) → delete_flowring submitted flow id ≡ some flow' → IsAccountable flow'
  closed-IsAccountable submitted e = elim (Option-cases (ring_at flow id)) [
    | inl gone ↦ absurd (unfold delete_flowring in faulted _ flow' gone e)
    | inr (ring, at) ↦
        let (flow1, e1, v1, _, _) = delete_flowring_lem submitted flow id ring at v in
        result-IsAccountable flow1 flow' e1 e v1
  ]

pub add_tdls_peer-IsAccountable :
    (kzalloc : Bool) (flow : Flowring) (peer : Mac)
    → IsAccountable flow
    → IsAccountable (add_tdls_peer kzalloc flow peer)
unfolding add_tdls_peer
add_tdls_peer-IsAccountable kzalloc flow peer v = if_keeps IsAccountable (not kzalloc) v (
    if_keeps IsAccountable (is_tdls_mac flow.tdls_entry peer) v
      (peers-IsAccountable flow flow.addr_mode true _ v))

pub changed-IsAccountable :
    (submitted : ℕ → Bool) (flow flow' : Flowring) (ifidx : ℕ) (addr_mode : AddrMode)
    → ifidx ≢ invalid_ifidx
    → configure_addr_mode submitted flow ifidx addr_mode ≡ some flow'
    → IsAccountable flow
    → IsAccountable flow'
changed-IsAccountable submitted flow flow' ifidx addr_mode known e v =
    elim (Bool-cases (bool_eq (is_indirect (flow.addr_mode ifidx)) (is_indirect addr_mode))) [
      | inl same ↦
          result-IsAccountable flow flow' refl (unfold configure_addr_mode in rw same at e) v
      | inr differs ↦
          let (flow1, e1, v1, _, _) =
            configure_addr_mode_closes submitted flow ifidx addr_mode v known differs in
          result-IsAccountable flow1 flow' e1 e v1
    ]

pub left-IsAccountable :
    (submitted : ℕ → Bool) (flow flow' : Flowring) (ifidx : ℕ) (peer : Mac)
    → ifidx ≢ invalid_ifidx
    → delete_peer submitted flow ifidx peer ≡ some flow'
    → IsAccountable flow
    → IsAccountable flow'
left-IsAccountable submitted flow flow' ifidx peer known e v =
    let (flow1, e1, v1, _) = delete_peer_closes submitted flow ifidx peer v known in
    result-IsAccountable flow1 flow' e1 e v1
