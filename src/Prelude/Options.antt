-- ===== src/Prelude/Options.antt =====
-- Options as results that may fail, and functions as arrays.
use Prim.Native.Nat.{ℕ}
use mathlib.Core.Path.{◌≡◌, refl}
use mathlib.Core.Logic.{◌≢◌}
use mathlib.Core.Bool.{Bool, true, false}
use mathlib.Core.Option.{Option, none, some}
use native.Mathlib.Omega.{arith}
use omdrop_awdl.Prelude.Tests.{◌==◌, if◌then◌else◌}

-- `none` is a fault: a NULL pointer that is followed, or an array that is left.
infixl 5 ◌>>=◌
abbrev pub ◌>>=◌ {ℓ κ} : {A : Type ℓ} {B : Type κ} → Option A → (A → Option B) → Option B
none >>= f = none
some a >>= f = f a

abbrev pub is_none {ℓ} : {A : Type ℓ} → Option A → Bool
is_none none = true
is_none (some a) = false

-- The array with one entry written.
abbrev pub update {ℓ} : {A : Type ℓ} → (ℕ → A) → ℕ → A → ℕ → A
update f i a j = if i == j then a else f j

pub update_self {ℓ} : {A : Type ℓ} (f : ℕ → A) (i : ℕ) (a : A) → update f i a i ≡ a
update_self f i a = ground arith

-- A Boolean compared with a Boolean.
abbrev pub bool_eq : Bool → Bool → Bool
bool_eq true b = b
bool_eq false true = false
bool_eq false false = true

pub bool_eq-true : (a b : Bool) → bool_eq a b ≡ true → a ≡ b
bool_eq-true true b h = ground arith
bool_eq-true false true h = ground arith
bool_eq-true false false h = refl

pub bool_eq-false : (a b : Bool) → bool_eq a b ≡ false → a ≢ b
bool_eq-false true b h e = ground arith
bool_eq-false false true h e = ground arith
bool_eq-false false false h e = ground arith
