-- ===== src/Table/Bitmap.antt =====
-- sdk/module/bitmap/bitmap.c: bits in an array of bytes; a NULL bitmap is `none`. An index outside
-- the array reads 0 here and writes nothing, where the source is undefined.
pub mod Bits
pub mod Update
pub mod Scan
mod Tests
use rs.Prelude.{
  ℕ, zero, suc, ◌+◌, ◌-◌, ◌*◌, ◌/◌, ◌%◌, ◌^◌, ◌≡◌, Bool, true, false, Option, none, some, List, ℤ,
  pos, neg_eperm, neg_einval, is_nonzero, bit_and, bit_or, u8, get_or, set, replicate, leb, ltb,
  negsuc, first_from, ◌==◌, if◌then◌else◌,
}

-- `wbitmap_t`
abbrev pub Bitmap : Type 0
Bitmap = Option (List ℕ)

-- The source's positive `return errno`.
abbrev pub einval : ℤ
einval = pos 22

-- `alloc_bitmap(size)`; the first argument tells whether `calloc` succeeds.
unfoldable pub alloc_bitmap : Bool → ℕ → Bitmap
alloc_bitmap ok size = if ok then some (replicate (size / 8 + 1) 0) else none

-- `((0x1 << offset) & byte) != 0`
unfoldable pub test_bit : ℕ → ℕ → ℕ
test_bit byte offset = if bit_and (2 ^ offset) byte == 0 then 0 else 1

unfoldable pub check_bitmap : Bitmap → ℕ → ℤ
check_bitmap none index = einval
check_bitmap (some bitmap) index = pos (test_bit (get_or bitmap (index / 8) 0) (index % 8))

-- `byte | (0x1 << offset)` and `byte & ~(0x1 << offset)`, in a byte.
pub set_bit : ℕ → ℕ → ℕ
set_bit byte offset = u8 (bit_or byte (2 ^ offset))

pub unset_bit : ℕ → ℕ → ℕ
unset_bit byte offset = bit_and byte (255 - 2 ^ offset)

pub set_bitmap : Bitmap → ℕ → ℤ × Bitmap
set_bitmap none index = (einval, none)
set_bitmap (some bitmap) index =
    (pos 0, some (set bitmap (index / 8) (set_bit (get_or bitmap (index / 8) 0) (index % 8))))

pub unset_bitmap : Bitmap → ℕ → ℤ × Bitmap
unset_bitmap none index = (neg_einval, none)
unset_bitmap (some bitmap) index =
    (pos 0, some (set bitmap (index / 8) (unset_bit (get_or bitmap (index / 8) 0) (index % 8))))

-- An `unsigned int` as the `int` that is returned.
pub int_of : ℕ → ℤ
int_of i = if ltb i (2 ^ 31) then pos i else negsuc (2 ^ 32 - 1 - i)

-- The loop stops at the first index from 1 on that `check_bitmap` does not answer with 0.
pub find_next_zero_bit : Bitmap → ℕ → ℤ
find_next_zero_bit none all_size = neg_einval
find_next_zero_bit (some bitmap) all_size =
    let i = first_from (λ i. is_nonzero (check_bitmap (some bitmap) i)) 1 (all_size - 1) in
    if leb all_size i then neg_eperm else int_of i
