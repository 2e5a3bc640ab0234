-- ===== src/Table/Bitmap/Update.antt =====
-- A bitmap is a set of indices: what `check_bitmap` answers after a change.
use rs.Prelude.{
  ℕ, ◌/◌, ◌%◌, ◌<◌, ◌≡◌, refl, true, false, none, some, List, pos, arith, length, length-set,
  get_or, set, get_or-set, ◌==◌, if◌then◌else◌,
}
use rs.Table.Bitmap.{Bitmap, set_bit, unset_bit, check_bitmap, set_bitmap, unset_bitmap}
use rs.Table.Bitmap.Bits.{test_bit-update}

-- The byte of the index lies inside the bitmap.
abbrev pub Holds : List ℕ → ℕ → Type 0
Holds bm i = i / 8 < length bm

-- Two indices of one byte differ in the offset.
same_index : (i j : ℕ) → i / 8 ≡ j / 8 → (i == j) ≡ (i % 8 == j % 8)
same_index i j e = ground arith

-- Setting a bit inside the bitmap, in a byte, returns 0, sets that bit and leaves every other one.
pub check_bitmap-set_bitmap :
    (bm : List ℕ) (i j : ℕ)
    → Holds bm i
    → get_or bm (i / 8) 0 < 256
    → ((set_bitmap (some bm) i).0 ≡ pos 0)
      × (check_bitmap (set_bitmap (some bm) i).1 j
          ≡ (if i == j then pos 1 else check_bitmap (some bm) j))
unfolding set_bitmap check_bitmap
check_bitmap-set_bitmap bm i j h byte = (
  refl,
  ground (
    arith,
    same_index i j,
    get_or-set bm (i / 8) (j / 8) (set_bit (get_or bm (i / 8) 0) (i % 8)) 0 h,
    test_bit-update (get_or bm (i / 8) 0) (i % 8) (j % 8) byte (omega arith) (omega arith),
  ),
)

-- Clearing a bit inside the bitmap, in a byte, returns 0, clears that bit and leaves every other
-- one.
pub check_bitmap-unset_bitmap :
    (bm : List ℕ) (i j : ℕ)
    → Holds bm i
    → get_or bm (i / 8) 0 < 256
    → ((unset_bitmap (some bm) i).0 ≡ pos 0)
      × (check_bitmap (unset_bitmap (some bm) i).1 j
          ≡ (if i == j then pos 0 else check_bitmap (some bm) j))
unfolding unset_bitmap check_bitmap
check_bitmap-unset_bitmap bm i j h byte = (
  refl,
  ground (
    arith,
    same_index i j,
    get_or-set bm (i / 8) (j / 8) (unset_bit (get_or bm (i / 8) 0) (i % 8)) 0 h,
    test_bit-update (get_or bm (i / 8) 0) (i % 8) (j % 8) byte (omega arith) (omega arith),
  ),
)

-- A bitmap of bytes with room for `n` indices.
abbrev pub IsSized : Bitmap → ℕ → Type 0
IsSized none n = false ≡ true
IsSized (some bm) n = (n / 8 < length bm) × ((k : ℕ) → get_or bm k 0 < 256)

set-bytes :
    (bm : List ℕ) (i v : ℕ)
    → i < length bm
    → v < 256
    → ((k : ℕ) → get_or bm k 0 < 256)
    → (k : ℕ) → get_or (set bm i v) k 0 < 256
set-bytes bm i v h hv bytes k = ground (arith, get_or-set bm i k v 0 h, bytes k)

pub set_bitmap-IsSized :
    (m : Bitmap) (n i : ℕ)
    → IsSized m n
    → i < n
    → ((set_bitmap m i).0 ≡ pos 0)
      × IsSized (set_bitmap m i).1 n
      × ((j : ℕ) → check_bitmap (set_bitmap m i).1 j ≡ (if i == j then pos 1 else check_bitmap m j))
unfolding set_bitmap
set_bitmap-IsSized none n i h lt = absurd (ground arith)
set_bitmap-IsSized (some bm) n i (room, bytes) lt =
    let h : i / 8 < length bm = omega arith in
    let up =
      test_bit-update (get_or bm (i / 8) 0) (i % 8) 0 (bytes (i / 8)) (omega arith) (omega arith) in
    (
      refl,
      (
        rw (length-set bm (i / 8) (set_bit (get_or bm (i / 8) 0) (i % 8))) room,
        set-bytes bm (i / 8) (set_bit (get_or bm (i / 8) 0) (i % 8)) h up.2 bytes,
      ),
      λ j. (check_bitmap-set_bitmap bm i j h (bytes (i / 8))).1,
    )

pub unset_bitmap-IsSized :
    (m : Bitmap) (n i : ℕ)
    → IsSized m n
    → i < n
    → ((unset_bitmap m i).0 ≡ pos 0)
      × IsSized (unset_bitmap m i).1 n
      × ((j : ℕ)
          → check_bitmap (unset_bitmap m i).1 j ≡ (if i == j then pos 0 else check_bitmap m j))
unfolding unset_bitmap
unset_bitmap-IsSized none n i h lt = absurd (ground arith)
unset_bitmap-IsSized (some bm) n i (room, bytes) lt =
    let h : i / 8 < length bm = omega arith in
    let up =
      test_bit-update (get_or bm (i / 8) 0) (i % 8) 0 (bytes (i / 8)) (omega arith) (omega arith) in
    (
      refl,
      (
        rw (length-set bm (i / 8) (unset_bit (get_or bm (i / 8) 0) (i % 8))) room,
        set-bytes bm (i / 8) (unset_bit (get_or bm (i / 8) 0) (i % 8)) h up.3 bytes,
      ),
      λ j. (check_bitmap-unset_bitmap bm i j h (bytes (i / 8))).1,
    )
