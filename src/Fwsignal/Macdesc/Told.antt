-- ===== src/Fwsignal/Macdesc/Told.antt =====
-- fwsignal.c: brcmf_fws_macdesc_indicate on a table of descriptors.
use mathlib.Core.Path.{subst⁻¹}
use omdrop_awdl.Prelude.{
  ℕ, ◌%◌, ◌<◌, ◌≡◌, ◌⊎◌, inl, inr, refl, ◌∙◌, ap, true, false, Option, none, some, List, [], ◌∷◌,
  ◌==◌, arith, Bool-cases, update, update_self,
}
use omdrop_awdl.Flowring.{Mac}
use omdrop_awdl.Fwsignal.Signals.{macdesc_add, macdesc_del}
use omdrop_awdl.Fwsignal.Macdesc.{
  Macdesc, Descriptors, Waiting, table_size, update_failed, macdesc_init, macdesc_deinit,
  macdesc_lookup, psq_flush, delete_node, add_node, macdesc_indicate,
}
use omdrop_awdl.Fwsignal.Macdesc.Unique.{
  IsOf, IsUnique, mac_eq_refl, macdesc_lookup-some, macdesc_lookup-none, macdesc_lookup-IsUnique,
  IsUnique-closed, IsUnique-new, IsUnique-moved,
}

-- The peer is found in slot `i`; or another peer is in that slot, this one has none, and the failure
-- is counted.
abbrev pub Added : Descriptors → Descriptors → ℕ → Mac → Type 0
Added s s' i addr =
    (macdesc_lookup table_size s'.nodes addr 0 ≡ some i)
    ⊎ (((s.nodes i).occupied ≡ true)
        × (macdesc_lookup table_size s.nodes addr 0 ≡ none)
        × (s' ≡ update_failed s))

psq_flush_keeps : (ps : List Waiting) (s : Descriptors) → (psq_flush ps s).nodes ≡ s.nodes
unfolding psq_flush
psq_flush_keeps [] s = refl
psq_flush_keeps (p ∷ ps) s = psq_flush_keeps ps _

delete_node_lem :
    (s : Descriptors) (i : ℕ)
    → IsUnique s.nodes
    → IsUnique (delete_node s i).nodes × ((delete_node s i).nodes i).occupied ≡ false
unfolding delete_node macdesc_deinit
delete_node_lem s i unique = elim (Bool-cases (s.nodes i).occupied) [
  | inl busy ↦
      let desc : Macdesc = macdesc_deinit (record (s.nodes i) { psq = []; occupied = false }) in
      rw busy (
        rw (psq_flush_keeps (s.nodes i).psq s) (
          IsUnique-closed s.nodes i desc refl unique,
          ap (λ d. d.occupied) (update_self s.nodes i desc),
        ))
  | inr idle ↦ rw idle (unique, idle)
]

add_node_lem :
    (s : Descriptors) (i mac_handle ifidx : ℕ) (addr : Mac) (existing : Option ℕ)
    → i < table_size
    → macdesc_lookup table_size s.nodes addr 0 ≡ existing
    → IsUnique s.nodes
    → let s' = add_node s i mac_handle ifidx addr existing in IsUnique s'.nodes × Added s s' i addr
unfolding add_node macdesc_init macdesc_deinit
add_node_lem s i mac_handle ifidx addr none i_in e unique = elim (Bool-cases (s.nodes i).occupied) [
  | inl busy ↦ rw busy (unique, inr (refl, e, refl))
  | inr idle ↦
      let desc : Macdesc =
        record (macdesc_init (record (s.nodes i) { mac_handle = mac_handle }) addr ifidx) {
          psq = [];
        } in
      let unique' =
        IsUnique-new s.nodes i desc
          (λ (k : ℕ) k_in. macdesc_lookup-none table_size s.nodes addr 0 e k (omega arith) k_in)
          unique in
      let its : IsOf (update s.nodes i desc i) addr =
        subst⁻¹ (λ d. IsOf d addr) (update_self s.nodes i desc) (refl, mac_eq_refl addr) in
      rw idle
        (unique', inl (macdesc_lookup-IsUnique (update s.nodes i desc) addr i unique' i_in its))
]
add_node_lem s i mac_handle ifidx addr (some existing) i_in e unique =
    let found = macdesc_lookup-some table_size s.nodes addr 0 existing e in
    elim (Bool-cases (i == existing)) [
      | inl here ↦
          let same : existing ≡ i = ground arith in rw here (unique, inl (e ∙ ap some same))
      | inr there ↦
          let copied : Macdesc = record (s.nodes existing) {
            mac_handle = mac_handle;
            psq = (s.nodes i).psq;
          } in
          let left : Macdesc = macdesc_deinit (s.nodes existing) in
          let nodes' : ℕ → Macdesc = update (update s.nodes i copied) existing left in
          let apart : (existing == i) ≡ false = ground arith in
          let unique' =
            IsUnique-moved s.nodes i existing copied left (ground arith) (omega (arith, found.0))
              (λ (a : Mac) v. v) refl unique in
          let its : nodes' i ≡ copied = rw apart (update_self s.nodes i copied) in
          rw there (
            unique',
            inl (
                macdesc_lookup-IsUnique nodes' addr i unique' i_in
                  (subst⁻¹ (λ d. IsOf d addr) its found.1)),
          )
    ]

-- If no two occupied descriptors have the same address, that still holds after macdesc_indicate,
-- for a peer that is added and for one that is removed. A peer that is added is found in the slot
-- of its handle; or another peer is in that slot, this one had no descriptor, and only the failure
-- is counted. After a removal the slot is not occupied.
pub macdesc_indicate-IsUnique :
    (s : Descriptors) (mac_handle ifidx : ℕ) (addr : Mac)
    → IsUnique s.nodes
    → let i = mac_handle % table_size in
      let added = macdesc_indicate s macdesc_add mac_handle ifidx addr in
      let deleted = macdesc_indicate s macdesc_del mac_handle ifidx addr in
      IsUnique added.nodes
      × Added s added i addr
      × IsUnique deleted.nodes
      × ((deleted.nodes i).occupied ≡ false)
unfolding macdesc_indicate
macdesc_indicate-IsUnique s mac_handle ifidx addr unique =
    let i : ℕ = mac_handle % table_size in
    let added =
      add_node_lem s i mac_handle ifidx addr (macdesc_lookup table_size s.nodes addr 0)
        (omega arith) refl unique in
    let deleted = delete_node_lem s i unique in (added.0, added.1, deleted.0, deleted.1)
