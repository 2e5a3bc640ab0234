-- ===== src/Prelude/Num.antt =====
-- C's `int` results: a count, or a negative error number. `negsuc n` is -(n + 1).
use Prim.Native.Nat.{ℕ, ◌%◌, ◌^◌}
use mathlib.Core.Bool.{Bool, true, false}

pub data ℤ : Type 0 where
  pos : ℕ → ℤ
  negsuc : ℕ → ℤ

-- `x < 0`
abbrev pub is_neg : ℤ → Bool
is_neg (pos n) = false
is_neg (negsuc n) = true

-- `x` in a condition: not zero
abbrev pub is_nonzero : ℤ → Bool
is_nonzero (pos n) = is_nonzero_ℕ n
  where
    is_nonzero_ℕ : ℕ → Bool
    is_nonzero_ℕ = elim [ ℕ.zero ↦ false | ℕ.suc k ↦ true ]
is_nonzero (negsuc n) = true

-- The error numbers of Linux, negated.
abbrev pub neg_eperm : ℤ
neg_eperm = negsuc 0

-- A plain `return -1`, which is also -EPERM.
abbrev pub neg_one : ℤ
neg_one = negsuc 0

abbrev pub neg_eio : ℤ
neg_eio = negsuc 4

abbrev pub neg_enomem : ℤ
neg_enomem = negsuc 11

abbrev pub neg_eexist : ℤ
neg_eexist = negsuc 16

abbrev pub neg_enodev : ℤ
neg_enodev = negsuc 18

abbrev pub neg_einval : ℤ
neg_einval = negsuc 21

-- Casts to the fixed widths.
abbrev pub u8 : ℕ → ℕ
u8 n = n % 2 ^ 8

abbrev pub u16 : ℕ → ℕ
u16 n = n % 2 ^ 16

abbrev pub u32 : ℕ → ℕ
u32 n = n % 2 ^ 32
