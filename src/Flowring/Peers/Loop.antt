-- ===== src/Flowring/Peers/Loop.antt =====
-- flowring.c: the loop that closes the rings of a peer or an interface.
use mathlib.Core.Bool.{false≢true}
use native.Mathlib.Decide.{ℕ_discrete}
use omdrop_awdl.Prelude.{
  ℕ, zero, suc, ◌+◌, ◌≤◌, ◌<◌, ◌≡◌, ◌≢◌, refl, Bool, true, false, some, arith, Bool-cases, inl, inr,
  ◌∙◌, ap, sym,
}
use omdrop_awdl.Flowring.{HashEntry, hashsize, invalid_ifidx, is_open, FlowRing, Flowring}
use omdrop_awdl.Flowring.Flow.Stop.{IsAccountable}
use omdrop_awdl.Flowring.Peers.{close_entry, close_entries}
use omdrop_awdl.Flowring.Peers.Closing.{
  IsShrunk, IsClosed, delete_flowring_lem, entry-ring, IsShrunk-refl,
}

module _ (test : HashEntry → Bool)
    (known : (e : HashEntry) → test e ≡ true → e.ifidx ≢ invalid_ifidx) where
  -- What is closed stays closed.
  IsShrunk-IsClosed :
      (flow flow' : Flowring) (i : ℕ)
      → IsShrunk flow flow'
      → IsClosed test flow i
      → IsClosed test flow' i
  IsShrunk-IsClosed flow flow' i s c = record {
    not_open = λ t ring h. elim (s.entries i) [
      | inl same ↦ elim (Bool-cases (is_open ring.status)) [
        | inl o ↦
            let (old, at, o') = s.rings_open _ ring h o in
            absurd (
              false≢true (
                sym (
                  c.not_open (ap test (sym same) ∙ t) old
                    (ap (λ e. flow.rings e.flowid) (sym same) ∙ at))
                ∙ o'))
        | inr o ↦ o
      ]
      | inr gone ↦ absurd (known _ t gone)
    ];
  }

  close_entry_lem :
      (submitted : ℕ → Bool) (flow : Flowring) (i : ℕ)
      → i < hashsize
      → IsAccountable flow
      → (flow' : Flowring) × (close_entry test submitted flow i ≡ some flow')
        × IsAccountable flow'
        × IsShrunk flow flow'
        × IsClosed test flow' i
  unfolding close_entry
  close_entry_lem submitted flow i i_in v = elim (Bool-cases (test (flow.hash i))) [
    | inr e ↦ (
      flow,
      rw e,
      v,
      IsShrunk-refl flow,
      record { not_open = λ t. absurd (false≢true (sym e ∙ t)) },
    )
    | inl e ↦
        let (ring, at) = entry-ring flow i v i_in (known _ e) in
        elim (Bool-cases (is_open ring.status)) [
          | inr shut ↦ (
            flow,
            rw (e, at) (rw shut),
            v,
            IsShrunk-refl flow,
            record { not_open = λ t r h. ground arith },
          )
          | inl o ↦
              let (flow', done, v', s, c) =
                delete_flowring_lem (submitted (flow.hash i).flowid) flow (flow.hash i).flowid ring
                  at v in
              (
                flow',
                rw (e, at) (rw o done),
                v',
                s,
                record {
                  not_open = λ t r h. elim (s.entries i) [
                    | inl same ↦ c r (ap (λ e. flow'.rings e.flowid) (sym same) ∙ h)
                    | inr gone ↦ absurd (known _ t gone)
                  ];
                },
              )
        ]
  ]

  pub close_entries_lem :
      (submitted : ℕ → Bool) (flow : Flowring) (i left : ℕ)
      → i + left ≤ hashsize
      → IsAccountable flow
      → ((j : ℕ) → j < i → IsClosed test flow j)
      → (flow' : Flowring) × (close_entries test submitted flow i left ≡ some flow')
        × IsAccountable flow'
        × ((j : ℕ) → j < i + left → IsClosed test flow' j)
  unfolding close_entries
  close_entries_lem submitted flow i zero h v c = (flow, refl, v, λ j b. c j (omega arith))
  close_entries_lem submitted flow i (suc left) h v c =
      let (flow1, e, v1, s, here) = close_entry_lem submitted flow i (omega arith) v in
      let earlier : (j : ℕ) → j < i + 1 → IsClosed test flow1 j = λ j b. elim (ℕ_discrete j i) [
        | yes same ↦ rw same here
        | no n ↦ IsShrunk-IsClosed flow flow1 j s (c j (omega arith))
      ] in
      let (flow2, e2, v2, c2) =
        close_entries_lem submitted flow1 (i + 1) left (omega arith) v1 earlier in
      (flow2, rw e e2, v2, λ j b. c2 j (omega arith))

  -- After the loop no ring whose entry passes the test is open.
  pub rings-closed :
      (flow : Flowring) (id : ℕ) (ring : FlowRing)
      → IsAccountable flow
      → ((j : ℕ) → j < hashsize → IsClosed test flow j)
      → id < flow.nrofrings
      → flow.rings id ≡ some ring
      → test (flow.hash ring.hash_id) ≡ true
      → is_open ring.status ≡ false
  rings-closed flow id ring v c id_in there t =
      let (own_in, _, back) = v.linked.entered id ring id_in there in
      (c ring.hash_id own_in).not_open t ring (ap flow.rings back ∙ there)
