-- ===== src/Fwsignal/Macdesc/Unique.antt =====
-- fwsignal.c: the descriptors of an address, and how writes to the table change them.
use mathlib.Core.Path.{subst}
use omdrop_awdl.Prelude.{
  ℕ, zero, suc, ◌+◌, ◌≤◌, ◌<◌, ◌≡◌, ◌≢◌, ◌⊎◌, inl, inr, refl, ◌∙◌, ap, sym, Bool, true, false, ◌&&◌,
  Option, none, some, ◌==◌, arith, Bool-cases, Option-cases, update,
}
use omdrop_awdl.Flowring.{Mac, mac_eq}
use omdrop_awdl.Fwsignal.Macdesc.{Macdesc, table_size, macdesc_lookup}

-- The descriptor is occupied, for the address.
abbrev pub IsOf : Macdesc → Mac → Type 0
IsOf desc addr = (desc.occupied ≡ true) × (mac_eq desc.ea addr ≡ true)

abbrev pub IsUnique : (ℕ → Macdesc) → Type 0
IsUnique nodes =
    (addr : Mac) (i j : ℕ)
    → i < table_size
    → j < table_size
    → IsOf (nodes i) addr
    → IsOf (nodes j) addr
    → i ≡ j

pub mac_eq_refl : (a : Mac) → mac_eq a a ≡ true
mac_eq_refl a = ground arith

hit_lem : (desc : Macdesc) (ea : Mac) → (desc.occupied && mac_eq desc.ea ea) ≡ true → IsOf desc ea
hit_lem desc ea h = both desc.occupied (mac_eq desc.ea ea) h
  where
    both : (a b : Bool) → (a && b) ≡ true → (a ≡ true) × (b ≡ true)
    both a b h = ground arith

miss_lem :
    (desc : Macdesc) (ea : Mac) → (desc.occupied && mac_eq desc.ea ea) ≡ false → ¬ (IsOf desc ea)
miss_lem desc ea h v = neither desc.occupied (mac_eq desc.ea ea) h v.0 v.1
  where
    neither : (a b : Bool) → (a && b) ≡ false → a ≡ true → b ≡ true → ⊥
    neither a b h k l = ground arith

some_lem : (i k : ℕ) → ◌≡◌ {A = Option ℕ} (some i) (some k) → i ≡ k
some_lem i k e = ground arith

none_lem : {i : ℕ} → ◌≢◌ {A = Option ℕ} none (some i)
none_lem e = ground arith

pub macdesc_lookup-some :
    (count : ℕ) (nodes : ℕ → Macdesc) (ea : Mac) (i k : ℕ)
    → macdesc_lookup count nodes ea i ≡ some k
    → (k < i + count) × IsOf (nodes k) ea
unfolding macdesc_lookup
macdesc_lookup-some zero nodes ea i k e = ground arith
macdesc_lookup-some (suc count) nodes ea i k e =
    elim (Bool-cases ((nodes i).occupied && mac_eq (nodes i).ea ea)) [
      | inl hit ↦
          let first : macdesc_lookup (suc count) nodes ea i ≡ some i = rw hit refl in
          let same : i ≡ k = some_lem i k (sym first ∙ e) in
          (omega arith, subst (λ j. IsOf (nodes j) ea) same (hit_lem (nodes i) ea hit))
      | inr miss ↦
          let next : macdesc_lookup (suc count) nodes ea i ≡ macdesc_lookup count nodes ea (i + 1) =
            rw miss refl in
          let rest = macdesc_lookup-some count nodes ea (i + 1) k (sym next ∙ e) in
          (omega (arith, rest.0), rest.1)
    ]

pub macdesc_lookup-none :
    (count : ℕ) (nodes : ℕ → Macdesc) (ea : Mac) (i : ℕ)
    → macdesc_lookup count nodes ea i ≡ none
    → (k : ℕ) → i ≤ k
    → k < i + count
    → ¬ (IsOf (nodes k) ea)
unfolding macdesc_lookup
macdesc_lookup-none zero nodes ea i e k le lt v = absurd (omega arith)
macdesc_lookup-none (suc count) nodes ea i e k le lt v =
    elim (Bool-cases ((nodes i).occupied && mac_eq (nodes i).ea ea)) [
      | inl hit ↦
          let first : macdesc_lookup (suc count) nodes ea i ≡ some i = rw hit refl in
          absurd (none_lem (sym e ∙ first))
      | inr miss ↦
          let next : macdesc_lookup (suc count) nodes ea i ≡ macdesc_lookup count nodes ea (i + 1) =
            rw miss refl in
          elim (Bool-cases (i == k)) [
            | inl here ↦
                let same : k ≡ i = ground arith in
                miss_lem (nodes i) ea miss (subst (λ j. IsOf (nodes j) ea) same v)
            | inr later ↦
                macdesc_lookup-none count nodes ea (i + 1) (sym next ∙ e) k (ground arith)
                  (omega arith) v
          ]
    ]

-- The lookup finds the one descriptor of an address.
pub macdesc_lookup-IsUnique :
    (nodes : ℕ → Macdesc) (ea : Mac) (k : ℕ)
    → IsUnique nodes
    → k < table_size
    → IsOf (nodes k) ea
    → macdesc_lookup table_size nodes ea 0 ≡ some k
macdesc_lookup-IsUnique nodes ea k unique k_in v =
    elim (Option-cases (macdesc_lookup table_size nodes ea 0)) [
      | inl e ↦ absurd (macdesc_lookup-none table_size nodes ea 0 e k (omega arith) k_in v)
      | inr (j, e) ↦
          let found = macdesc_lookup-some table_size nodes ea 0 j e in
          e ∙ ap some (unique ea j k (omega (arith, found.0)) k_in found.1 v)
    ]

mac_eq_sym : (a b : Mac) → mac_eq a b ≡ true → mac_eq b a ≡ true
mac_eq_sym a b h = ground arith

mac_eq_trans : (a b c : Mac) → mac_eq a b ≡ true → mac_eq b c ≡ true → mac_eq a c ≡ true
mac_eq_trans a b c h k = ground arith

-- What stands in a slot after a write.
At : (ℕ → Macdesc) → ℕ → Macdesc → ℕ → Mac → Type 0
At nodes i desc x addr = ((i ≡ x) × IsOf desc addr) ⊎ ((i ≢ x) × IsOf (nodes x) addr)

at_lem :
    (nodes : ℕ → Macdesc) (i : ℕ) (desc : Macdesc) (x : ℕ) (addr : Mac)
    → IsOf (update nodes i desc x) addr
    → At nodes i desc x addr
unfolding At
at_lem nodes i desc x addr v = elim (Bool-cases (i == x)) [
  | inl here ↦
      let e : update nodes i desc x ≡ desc = rw here refl in
      inl (ground arith, subst (λ d. IsOf d addr) e v)
  | inr there ↦
      let e : update nodes i desc x ≡ nodes x = rw there refl in
      inr (ground arith, subst (λ d. IsOf d addr) e v)
]

-- A descriptor that is not occupied may be anywhere.
pub IsUnique-closed :
    (nodes : ℕ → Macdesc) (i : ℕ) (desc : Macdesc)
    → desc.occupied ≡ false
    → IsUnique nodes
    → IsUnique (update nodes i desc)
unfolding At
IsUnique-closed nodes i desc off unique addr x y x_in y_in v w =
    elim (at_lem nodes i desc x addr v) [
      | inl (e, v') ↦ absurd (ground (arith, off, v'.0))
      | inr (ne, v') ↦ elim (at_lem nodes i desc y addr w) [
        | inl (e, w') ↦ absurd (ground (arith, off, w'.0))
        | inr (ne', w') ↦ unique addr x y x_in y_in v' w'
      ]
    ]

-- A new address may be anywhere.
pub IsUnique-new :
    (nodes : ℕ → Macdesc) (i : ℕ) (desc : Macdesc)
    → ((k : ℕ) → k < table_size → ¬ (IsOf (nodes k) desc.ea))
    → IsUnique nodes
    → IsUnique (update nodes i desc)
unfolding At
IsUnique-new nodes i desc fresh unique addr x y x_in y_in v w =
    elim (at_lem nodes i desc x addr v) [
      | inl (e, v') ↦ elim (at_lem nodes i desc y addr w) [
        | inl (e', w') ↦ sym e ∙ e'
        | inr (ne, w') ↦ absurd (clash y y_in v' w')
      ]
      | inr (ne, v') ↦ elim (at_lem nodes i desc y addr w) [
        | inl (e, w') ↦ absurd (clash x x_in w' v')
        | inr (ne', w') ↦ unique addr x y x_in y_in v' w'
      ]
    ]
  where
    clash : (k : ℕ) → k < table_size → IsOf desc addr → IsOf (nodes k) addr → ⊥
    clash k k_in v w =
        fresh k k_in (w.0, mac_eq_trans (nodes k).ea addr desc.ea w.1 (mac_eq_sym desc.ea addr v.1))

-- A descriptor that moves to another slot.
pub IsUnique-moved :
    (nodes : ℕ → Macdesc) (i j : ℕ) (desc off_desc : Macdesc)
    → i ≢ j
    → j < table_size
    → ((addr : Mac) → IsOf desc addr → IsOf (nodes j) addr)
    → off_desc.occupied ≡ false
    → IsUnique nodes
    → IsUnique (update (update nodes i desc) j off_desc)
unfolding At
IsUnique-moved nodes i j desc off_desc ne j_in copy off unique addr x y x_in y_in v w =
    elim (split x v) [
      | inl (e, v') ↦ elim (split y w) [
        | inl (e', w') ↦ sym e ∙ e'
        | inr (ne', w') ↦ absurd (ne'.1 (unique addr j y j_in y_in v' w'))
      ]
      | inr (ne', v') ↦ elim (split y w) [
        | inl (e, w') ↦ absurd (ne'.1 (unique addr j x j_in x_in w' v'))
        | inr (ne'', w') ↦ unique addr x y x_in y_in v' w'
      ]
    ]
  where
    split :
        (k : ℕ)
        → IsOf (update (update nodes i desc) j off_desc k) addr
        → ((i ≡ k) × IsOf (nodes j) addr) ⊎ (((i ≢ k) × (j ≢ k)) × IsOf (nodes k) addr)
    split k u = elim (at_lem (update nodes i desc) j off_desc k addr u) [
      | inl (e, u') ↦ absurd (ground (arith, off, u'.0))
      | inr (apart, u') ↦ elim (at_lem nodes i desc k addr u') [
        | inl (e, u'') ↦ inl (e, copy addr u'')
        | inr (ne', u'') ↦ inr ((ne', apart), u'')
      ]
    ]
