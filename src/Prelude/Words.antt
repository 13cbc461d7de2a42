-- ===== src/Prelude/Words.antt =====
-- Machine words as native numbers, and the status codes of the kernel.
use Prim.Native.Nat.{ℕ, ◌+◌, ◌-◌, ◌%◌, ◌^◌}

-- What an assignment to a `u8`, `u16` or `u32` variable keeps of its value.
abbrev pub u8 : ℕ → ℕ
u8 n = n % 2 ^ 8

abbrev pub u16 : ℕ → ℕ
u16 n = n % 2 ^ 16

abbrev pub u32 : ℕ → ℕ
u32 n = n % 2 ^ 32

-- The difference of two words, stored in a `u8`, `u16` or `u32`. The minuend and the subtrahend
-- are below the modulus.
abbrev pub sub8 : ℕ → ℕ → ℕ
sub8 a b = (a + 2 ^ 8 - b) % 2 ^ 8

abbrev pub sub16 : ℕ → ℕ → ℕ
sub16 a b = (a + 2 ^ 16 - b) % 2 ^ 16

abbrev pub sub32 : ℕ → ℕ → ℕ
sub32 a b = (a + 2 ^ 32 - b) % 2 ^ 32

-- The `int` that a kernel function returns: 0, or a negative errno.
pub data Status : Type 0 where
  success : Status
  eio : Status
  enomem : Status
