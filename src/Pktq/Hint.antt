-- ===== src/Pktq/Hint.antt =====
-- brcmutil/utils.c: the hint hi_prec, and the loops that lower it.
use native.Mathlib.Decide.{ℕ_discrete}
use omdrop_awdl.Prelude.{
  ℕ, zero, suc, ◌≤◌, ◌<◌, ◌≡◌, refl, Bool, true, false, ◌||◌, Option, none, some, List, [], ◌∷◌,
  leb, length, arith, Bool-cases, inl, inr, leb→le, not,
}
use omdrop_awdl.Pktq.{PktqPrec, Pktq, lower_hi, highest_used, is_empty}
use omdrop_awdl.Pktq.Total.{IsSound}
use omdrop_awdl.Pktq.{in_bmp}

pub nil : (ps : List ℕ) → is_empty ps ≡ true → ps ≡ []
nil [] h = refl
nil (p ∷ ps) h = absurd (ground arith)

skipped : (ps : List ℕ) (b : Bool) → (not b || is_empty ps) ≡ true → b ≡ true → ps ≡ []
skipped ps b h h' = nil ps (ground arith)

taken : (b e : Bool) → (not b || e) ≡ false → (b ≡ true) × (e ≡ false)
taken b e h = (ground arith, ground arith)

pub is_empty_lem : (ps : List ℕ) → length ps ≡ 0 → is_empty ps ≡ true
is_empty_lem [] h = refl
is_empty_lem (p ∷ ps) h = absurd (omega arith)

lower_hi_lem :
    (q : ℕ → PktqPrec) (hi : ℕ)
    → (lower_hi q hi ≤ hi) × ((prec : ℕ) → lower_hi q hi < prec → prec ≤ hi → (q prec).skblist ≡ [])
unfolding lower_hi
lower_hi_lem q zero = (omega arith, λ prec b b'. absurd (omega arith))
lower_hi_lem q (suc hi) = elim (Bool-cases (is_empty (q (suc hi)).skblist)) [
  | inl e ↦
      let (le, above) = lower_hi_lem q hi in
      (
        rw e (omega arith),
        λ prec b b'. elim (ℕ_discrete prec (suc hi)) [
          | yes same ↦ rw same (nil (q (suc hi)).skblist e)
          | no n ↦ above prec (rw e at b) (omega arith)
        ],
      )
  | inr e ↦ (rw e (omega arith), λ prec b b'. absurd (let far = rw e at b in omega arith))
]

pub lowered-IsSound :
    (pq : Pktq) → IsSound pq → IsSound (record pq { hi_prec = lower_hi pq.q pq.hi_prec })
lowered-IsSound pq v =
    let (le, low) = lower_hi_lem pq.q pq.hi_prec in
    record {
      precs = v.precs;
      hi_in = omega (arith, v.hi_in);
      counted = v.counted;
      bounded = v.bounded;
      fits = v.fits;
      above = λ prec b b'. elim (Bool-cases (leb prec pq.hi_prec)) [
        | inl e ↦ low prec b' (leb→le _ _ e)
        | inr e ↦ v.above prec b (ground arith)
      ];
    }

-- What the second loop of mdeq finds: the highest precedence of the set that has a packet.
pub data IsHighest (q : ℕ → PktqPrec) (prec_bmp hi : ℕ) : Option ℕ → Type 0 where
  nowhere :
      ((prec : ℕ) → prec ≤ hi → in_bmp prec_bmp prec ≡ true → (q prec).skblist ≡ [])
      → IsHighest q prec_bmp hi none
  at :
      (prec : ℕ)
      → prec ≤ hi
      → in_bmp prec_bmp prec ≡ true
      → is_empty (q prec).skblist ≡ false
      → ((higher : ℕ)
          → prec < higher
          → higher ≤ hi
          → in_bmp prec_bmp higher ≡ true
          → (q higher).skblist ≡ [])
      → IsHighest q prec_bmp hi (some prec)

raise :
    (q : ℕ → PktqPrec) (prec_bmp hi : ℕ) (o : Option ℕ)
    → (not (in_bmp prec_bmp (suc hi)) || is_empty (q (suc hi)).skblist) ≡ true
    → IsHighest q prec_bmp hi o
    → IsHighest q prec_bmp (suc hi) o
raise q prec_bmp hi none e (nowhere all) = nowhere λ prec b m. elim (ℕ_discrete prec (suc hi)) [
  | yes same ↦ rw same (skipped _ _ e (rw same at m))
  | no n ↦ all prec (omega arith) m
]
raise q prec_bmp hi (some prec) e (at _ le member used above) =
    at prec (omega arith) member used λ higher b b' m. elim (ℕ_discrete higher (suc hi)) [
      | yes same ↦ rw same (skipped _ _ e (rw same at m))
      | no n ↦ above higher b (omega arith) m
    ]

pub highest_used-IsHighest :
    (q : ℕ → PktqPrec) (prec_bmp hi : ℕ) → IsHighest q prec_bmp hi (highest_used q prec_bmp hi)
unfolding highest_used
highest_used-IsHighest q prec_bmp zero =
    elim (Bool-cases (not (in_bmp prec_bmp 0) || is_empty (q 0).skblist)) [
      | inl e ↦ rw e (
          nowhere
            λ prec b m. let same : prec ≡ 0 = omega arith in rw same (skipped _ _ e (rw same at m)))
      | inr e ↦
          let (member, used) = taken (in_bmp prec_bmp 0) _ e in
          rw e (at 0 (omega arith) member used λ higher b b'. absurd (omega arith))
    ]
highest_used-IsHighest q prec_bmp (suc hi) =
    elim (Bool-cases (not (in_bmp prec_bmp (suc hi)) || is_empty (q (suc hi)).skblist)) [
      | inl e ↦ rw e (raise q prec_bmp hi _ e (highest_used-IsHighest q prec_bmp hi))
      | inr e ↦
          let (member, used) = taken (in_bmp prec_bmp (suc hi)) _ e in
          rw e (at (suc hi) (omega arith) member used λ higher b b'. absurd (omega arith))
    ]

pub cons-cases : (ps : List ℕ) → is_empty ps ≡ false → (p : ℕ) × (rest : List ℕ) × (ps ≡ p ∷ rest)
cons-cases [] h = absurd (ground arith)
cons-cases (p ∷ ps) h = (p, ps, refl)
