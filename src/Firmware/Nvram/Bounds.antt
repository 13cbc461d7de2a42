-- ===== src/Firmware/Nvram/Bounds.antt =====
-- firmware.c: what the handlers of the NVRAM parser have written and read.
use omdrop_awdl.Prelude.{
  ℕ, ◌+◌, ◌-◌, ◌*◌, ◌^◌, ◌≤◌, ◌<◌, ◌≡◌, refl, Bool, true, false, ◌||◌, ◌==◌, length, u32, arith, ap,
  Bool-cases, inl, inr,
}
use omdrop_awdl.Firmware.Nvram.{
  ParserState, in_idle, in_key, in_value, in_comment, at_end, max_nvram_size, NvramParser,
  is_nvram_char, is_whitespace, proceed, goto_state, handle_idle,
}

abbrev pub rank : ParserState → ℕ
rank in_value = 4
rank in_idle = 3
rank in_key = 2
rank in_comment = 1
rank at_end = 0

-- How many steps may be left.
abbrev pub measure : NvramParser → ℕ
measure nvp = 5 * (nvp.data_len - nvp.pos) + rank nvp.state

abbrev pub in_entry : ParserState → Bool
in_entry in_key = true
in_entry in_value = true
in_entry _ = false

abbrev pub is_idle : ParserState → Bool
is_idle in_idle = true
is_idle _ = false

-- What has been written is no longer than what has been read, and fits the buffer.
pub record IsBounded (nvp : NvramParser) : Type 0 where
  pub fits : nvp.data_len < 2 ^ 32
  pub pos_in : nvp.pos ≤ nvp.data_len
  pub len_in : length nvp.nvram ≤ nvp.data_len
  pub len_max : length nvp.nvram < max_nvram_size
  pub near : length nvp.nvram ≤ nvp.pos + 1
  pub behind :
      is_idle nvp.state ≡ true
      → is_nvram_char (nvp.data_at nvp.pos) ≡ true
      → length nvp.nvram ≤ nvp.pos
  pub entered : in_entry nvp.state ≡ true → (length nvp.nvram ≤ nvp.entry) × (nvp.entry ≤ nvp.pos)

-- What one step leaves.
pub record IsStep (nvp nvp' : NvramParser) : Type 0 where
  pub bounded : IsBounded nvp'
  pub closer : measure nvp' < measure nvp
  pub same_len : nvp'.data_len ≡ nvp.data_len
  pub same_data : nvp'.data_at ≡ nvp.data_at

rank_small : (st : ParserState) → rank st ≤ 4
rank_small in_idle = omega arith
rank_small in_key = omega arith
rank_small in_value = omega arith
rank_small in_comment = omega arith
rank_small at_end = omega arith

-- A byte is passed.
pub proceed-IsStep :
    (st : ParserState) (nvp : NvramParser)
    → IsBounded nvp
    → nvp.pos < nvp.data_len
    → (in_entry st ≡ true → (length nvp.nvram ≤ nvp.entry) × (nvp.entry ≤ nvp.pos))
    → IsStep nvp (proceed st nvp)
proceed-IsStep st nvp v h e =
    let small = rank_small st in
    let next : u32 (nvp.pos + 1) ≡ nvp.pos + 1 = omega (arith, v.fits) in
    record {
      bounded = record {
        fits = v.fits;
        pos_in = omega arith;
        len_in = v.len_in;
        len_max = v.len_max;
        near = omega (arith, v.near);
        behind = λ i c. omega (arith, v.near);
        entered = λ i. ((e i).0, omega (arith, (e i).1));
      };
      closer = omega (arith, small);
      same_len = refl;
      same_data = refl;
    }

pub goto-comment-IsStep :
    (nvp : NvramParser)
    → IsBounded nvp
    → 1 < rank nvp.state
    → IsStep nvp (goto_state in_comment nvp)
goto-comment-IsStep nvp v h = record {
  bounded = record {
    fits = v.fits;
    pos_in = v.pos_in;
    len_in = v.len_in;
    len_max = v.len_max;
    near = v.near;
    behind = λ i. cc;
    entered = λ i. cc;
  };
  closer = omega arith;
  same_len = refl;
  same_data = refl;
}

pub handle_idle-IsStep :
    (nvp : NvramParser)
    → IsBounded nvp
    → nvp.pos < nvp.data_len
    → nvp.state ≡ in_idle
    → IsStep nvp (handle_idle nvp)
unfolding handle_idle
handle_idle-IsStep nvp v h st =
    let c : ℕ = nvp.data_at nvp.pos in
    let high : 1 < rank nvp.state = rw st (omega arith) in
    elim (Bool-cases (c == 10)) [
      | inl e ↦ rw e (goto-comment-IsStep nvp v high)
      | inr e ↦ rw e (elim (Bool-cases (is_whitespace c || (c == 0))) [
        | inl e1 ↦ rw e1 (proceed-IsStep in_idle nvp v h (λ i. cc))
        | inr e1 ↦ rw e1 (elim (Bool-cases (c == 35)) [
          | inl e2 ↦ rw e2 (goto-comment-IsStep nvp v high)
          | inr e2 ↦ rw e2 (elim (Bool-cases (is_nvram_char c)) [
            | inr e3 ↦ rw e3 (proceed-IsStep in_idle nvp v h (λ i. cc))
            | inl e3 ↦ rw e3 (record {
              bounded = record {
                fits = v.fits;
                pos_in = v.pos_in;
                len_in = v.len_in;
                len_max = v.len_max;
                near = v.near;
                behind = λ i. cc;
                entered = λ i. (v.behind (ap is_idle st) e3, omega arith);
              };
              closer = rw st (omega arith);
              same_len = refl;
              same_data = refl;
            })
          ])
        ])
      ])
    ]
