-- ===== src/Table/Bitmap/Tests.antt =====
-- A bitmap of two bytes.
use rs.Prelude.{zero, suc, get_or, ℕ, ◌<◌, ◌≡◌, refl, some, List, [], ◌∷◌, pos, arith, first_from}
use rs.Table.Bitmap.{int_of, check_bitmap, test_bit, find_next_zero_bit}
use rs.Table.Bitmap.Scan.{Scanned, find_next_zero_bit-first_set}

-- Bits 0, 2 and 9 are set.
abbrev bits : List ℕ
bits = 5 ∷ 2 ∷ []

-- The first zero bit from 1 on is 1; the code answers 2.
found : find_next_zero_bit (some bits) 16 ≡ pos 2
unfolding find_next_zero_bit first_from check_bitmap test_bit int_of
found = refl

bits_bytes : (k : ℕ) → get_or bits k 0 < 256
bits_bytes zero = omega arith
bits_bytes (suc zero) = omega arith
bits_bytes (suc (suc k)) = omega arith

find_next_zero_bit-first_set_example : Scanned bits 16 (find_next_zero_bit (some bits) 16)
find_next_zero_bit-first_set_example =
    find_next_zero_bit-first_set bits 16 (omega arith) (omega arith) (omega arith) bits_bytes
