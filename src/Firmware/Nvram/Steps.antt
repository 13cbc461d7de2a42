-- ===== src/Firmware/Nvram/Steps.antt =====
-- firmware.c: the steps of the handlers of the NVRAM parser.
use omdrop_awdl.Prelude.{
  ℕ, zero, suc, ◌+◌, ◌-◌, ◌≤◌, ◌<◌, ◌≡◌, refl, Bool, true, false, not, ◌&&◌, ◌||◌, some, [], ◌∷◌,
  ◌++◌, ◌==◌, leb, length, length-append, u32, if◌then◌else◌, arith, ap, ◌∙◌, Bool-cases, inl, inr,
}
use omdrop_awdl.Firmware.Nvram.{
  ParserState, in_idle, in_key, in_value, in_comment, at_end, max_nvram_size, NvramParser,
  is_nvram_char, handle_idle, handle_key, read_key, starts_with, raw1, macaddr, copy, handle_value,
  find_eoc, next_line, handle_comment, handle, is_end,
}
use mathlib.Core.Bool.{false≢true}
use omdrop_awdl.Firmware.Nvram.Bounds.{
  in_entry, IsBounded, IsStep, proceed-IsStep, goto-comment-IsStep, handle_idle-IsStep,
}

flags-IsBounded :
    (nvp : NvramParser) (v1 v2 b : Bool)
    → IsBounded nvp
    → IsBounded (record nvp { multi_dev_v1 = v1; multi_dev_v2 = v2; boardrev_found = b })
flags-IsBounded nvp v1 v2 b v = record {
  fits = v.fits;
  pos_in = v.pos_in;
  len_in = v.len_in;
  len_max = v.len_max;
  near = v.near;
  behind = v.behind;
  entered = v.entered;
}

handle_key-IsStep :
    (nvp : NvramParser)
    → IsBounded nvp
    → nvp.pos < nvp.data_len
    → nvp.state ≡ in_key
    → IsStep nvp (handle_key nvp)
unfolding handle_key read_key
handle_key-IsStep nvp v h st =
    let c : ℕ = nvp.data_at nvp.pos in
    let inside = v.entered (ap in_entry st) in
    elim (Bool-cases (c == 61)) [
      | inl e ↦
          let s =
            proceed-IsStep
              (if starts_with nvp nvp.entry raw1
                  || (nvp.strip_mac && starts_with nvp nvp.entry macaddr)
                then in_comment
                else in_value)
              (read_key nvp) (flags-IsBounded nvp _ _ _ v) h (λ i. inside) in
          rw e (record {
            bounded = s.bounded;
            closer = s.closer;
            same_len = s.same_len;
            same_data = s.same_data;
          })
      | inr e ↦ rw e (elim (Bool-cases (not (is_nvram_char c) || (c == 32))) [
        | inl e1 ↦ rw e1 (goto-comment-IsStep nvp v (rw st (omega arith)))
        | inr e1 ↦ rw e1 (proceed-IsStep nvp.state nvp v h (λ i. inside))
      ])
    ]

length-copy : (data_at : ℕ → ℕ) (i n : ℕ) → length (copy data_at i n) ≡ n
unfolding copy
length-copy data_at i zero = refl
length-copy data_at i (suc n) = ap suc (length-copy data_at (i + 1) n)

-- The entry is written with its NUL.
length-written :
    (nvp : NvramParser) (n : ℕ)
    → length (nvp.nvram ++ (copy nvp.data_at nvp.entry n ++ (0 ∷ []))) ≡ length nvp.nvram + n + 1
length-written nvp n =
    let outer = length-append nvp.nvram (copy nvp.data_at nvp.entry n ++ (0 ∷ [])) in
    let inner = length-append (copy nvp.data_at nvp.entry n) (0 ∷ []) in
    let middle = length-copy nvp.data_at nvp.entry n in omega arith

below : (m n : ℕ) → leb m n ≡ false → n < m
below m n h = ground arith

not-true : (b : Bool) → b ≡ true → not b ≡ true → false ≡ true
not-true b h h' = ground arith

handle_value-IsStep :
    (nvp : NvramParser)
    → IsBounded nvp
    → nvp.pos < nvp.data_len
    → nvp.state ≡ in_value
    → IsStep nvp (handle_value nvp)
unfolding handle_value
handle_value-IsStep nvp v h st =
    let cplen : ℕ = nvp.pos - nvp.entry in
    let (behind_entry, before) = v.entered (ap in_entry st) in
    elim (Bool-cases (not (is_nvram_char (nvp.data_at nvp.pos)))) [
      | inr e ↦ rw e (proceed-IsStep in_value nvp v h (λ i. (behind_entry, before)))
      | inl e ↦ rw e (elim (Bool-cases (leb max_nvram_size (u32 (length nvp.nvram + cplen + 1)))) [
        | inl full ↦ rw full (record {
          bounded = record {
            fits = v.fits;
            pos_in = v.pos_in;
            len_in = v.len_in;
            len_max = v.len_max;
            near = v.near;
            behind = λ i. cc;
            entered = λ i. cc;
          };
          closer = rw st (omega arith);
          same_len = refl;
          same_data = refl;
        })
        | inr room ↦
            let grown = length-written nvp cplen in
            let small = below max_nvram_size _ room in
            let whole : u32 (length nvp.nvram + cplen + 1) ≡ length nvp.nvram + cplen + 1 =
              omega (arith, v.fits) in
            rw room (record {
              bounded = record {
                fits = v.fits;
                pos_in = v.pos_in;
                len_in = omega arith;
                len_max = omega arith;
                near = omega arith;
                behind = λ i c. absurd (false≢true (not-true _ c e));
                entered = λ i. cc;
              };
              closer = rw st (omega arith);
              same_len = refl;
              same_data = refl;
            })
      ])
    ]

-- The end of a line is found if the file ends one.
one_left : (i : ℕ) → i + 1 - 1 ≡ i
one_left i = omega arith

more_left : (i left : ℕ) → i + suc (suc left) - 1 ≡ i + 1 + suc left - 1
more_left i left = omega arith

find_eoc_lem :
    (data_at : ℕ → ℕ) (i left : ℕ)
    → 0 < left
    → ((data_at (i + left - 1) == 10) || (data_at (i + left - 1) == 0)) ≡ true
    → (eoc : ℕ) × (find_eoc data_at i left ≡ some eoc) × (i ≤ eoc) × (eoc < i + left)
unfolding find_eoc
find_eoc_lem data_at i zero h e = elim h [ ]
find_eoc_lem data_at i (suc zero) h e =
    let last = rw (one_left i) at e in (i, rw last refl, omega arith, omega arith)
find_eoc_lem data_at i (suc (suc left)) h e =
    elim (Bool-cases ((data_at i == 10) || (data_at i == 0))) [
      | inl here ↦ (i, rw here refl, omega arith, omega arith)
      | inr there ↦
          let (eoc, found, lo, hi) =
            find_eoc_lem data_at (i + 1) (suc left) (omega arith) (rw (more_left i left) at e) in
          (eoc, rw there found, omega arith, omega arith)
    ]

handle_comment-IsStep :
    (nvp : NvramParser)
    → IsBounded nvp
    → nvp.pos < nvp.data_len
    → ((nvp.data_at (nvp.data_len - 1) == 10) || (nvp.data_at (nvp.data_len - 1) == 0)) ≡ true
    → (nvp' : NvramParser) × (handle_comment nvp ≡ some nvp') × IsStep nvp nvp'
unfolding handle_comment next_line
handle_comment-IsStep nvp v h last =
    let left : ℕ = nvp.data_len - nvp.pos in
    let same : nvp.pos + left - 1 ≡ nvp.data_len - 1 = omega arith in
    let (eoc, found, lo, hi) =
      find_eoc_lem nvp.data_at nvp.pos left (omega arith)
        (ap (λ i. (nvp.data_at i == 10) || (nvp.data_at i == 0)) same ∙ last) in
    let whole : u32 (eoc + 1) ≡ eoc + 1 = omega (arith, v.fits) in
    (
      record nvp { state = in_idle; line = u32 (nvp.line + 1); column = 1; pos = u32 (eoc + 1) },
      ap (next_line nvp) found,
      record {
        bounded = record {
          fits = v.fits;
          pos_in = omega arith;
          len_in = v.len_in;
          len_max = v.len_max;
          near = omega (arith, v.near);
          behind = λ i c. omega (arith, v.near);
          entered = λ i. cc;
        };
        closer = omega arith;
        same_len = refl;
        same_data = refl;
      },
    )

-- Every state but END takes a step.
pub handle-IsStep :
    (nvp : NvramParser) (st : ParserState)
    → nvp.state ≡ st
    → is_end st ≡ false
    → IsBounded nvp
    → nvp.pos < nvp.data_len
    → ((nvp.data_at (nvp.data_len - 1) == 10) || (nvp.data_at (nvp.data_len - 1) == 0)) ≡ true
    → (nvp' : NvramParser) × (handle nvp st ≡ some nvp') × IsStep nvp nvp'
unfolding handle
handle-IsStep nvp in_idle e live v h last = (handle_idle nvp, refl, handle_idle-IsStep nvp v h e)
handle-IsStep nvp in_key e live v h last = (handle_key nvp, refl, handle_key-IsStep nvp v h e)
handle-IsStep nvp in_value e live v h last = (handle_value nvp, refl, handle_value-IsStep nvp v h e)
handle-IsStep nvp in_comment e live v h last = handle_comment-IsStep nvp v h last
handle-IsStep nvp at_end e live v h last = cc
