-- ===== src/Table/Bitmap/Scan.antt =====
-- The index that `find_next_zero_bit` finds.
use rs.Prelude.{
  ℕ, ℤ, ◌+◌, ◌-◌, ◌*◌, ◌/◌, ◌%◌, ◌^◌, ◌≤◌, ◌<◌, ◌≡◌, inl, inr, refl, sym, ap, ap₂, ◌∙◌, subst, Bool,
  true, false, some, List, pos, neg_eperm, is_nonzero, arith, first_from, StopsAt, first_from_lem,
  get_or, length, all_below, all_below_sound, ◌==◌,
}
use rs.Table.Bitmap.{test_bit, check_bitmap, int_of, find_next_zero_bit}

-- The bit of an index: the bytes hold eight each, the lowest bit first.
abbrev pub bit_at : List ℕ → ℕ → ℕ
bit_at bm i = get_or bm (i / 8) 0 / 2 ^ (i % 8) % 2

byte_case : ℕ → Bool
byte_case x = test_bit (x / 8) (x % 8) == x / 8 / 2 ^ (x % 8) % 2

byte_cases : all_below 2048 byte_case ≡ true
unfolding all_below byte_case test_bit
byte_cases = refl

test_bit_lem : (b o : ℕ) → b < 256 → o < 8 → test_bit b o ≡ b / 2 ^ o % 2
unfolding byte_case
test_bit_lem b o hb ho =
    let byte : (b * 8 + o) / 8 ≡ b = omega arith in
    let offset : (b * 8 + o) % 8 ≡ o = omega arith in
    let same : test_bit ((b * 8 + o) / 8) ((b * 8 + o) % 8)
        ≡ (b * 8 + o) / 8 / 2 ^ ((b * 8 + o) % 8) % 2 =
      ground (arith, all_below_sound 2048 byte_case (b * 8 + o) byte_cases (omega arith)) in
    sym (ap₂ test_bit byte offset) ∙ same ∙ ap₂ (λ c p. c / 2 ^ p % 2) byte offset

module _ (bm : List ℕ) (size : ℕ) where
  -- What the scan gives.
  pub data Scanned : ℤ → Type 0 where
    found :
        (i : ℕ)
        → 1 ≤ i
        → i < size
        → bit_at bm i ≡ 1
        → ((k : ℕ) → 1 ≤ k → k < i → bit_at bm k ≡ 0)
        → Scanned (pos i)
    none_set : ((k : ℕ) → 1 ≤ k → k < size → bit_at bm k ≡ 0) → Scanned neg_eperm

  module _ (low : 1 ≤ size) (room : size ≤ length bm * 8) (small : size ≤ 2 ^ 31)
      (bytes : (k : ℕ) → get_or bm k 0 < 256) where
    check : ℕ → Bool
    check i = is_nonzero (check_bitmap (some bm) i)

    check_bit : (i : ℕ) → is_nonzero (pos (bit_at bm i)) ≡ check i
    unfolding check check_bitmap
    check_bit i =
        ap (λ n. is_nonzero (pos n))
          (sym (test_bit_lem (get_or bm (i / 8) 0) (i % 8) (bytes (i / 8)) (omega arith)))

    bit_set : (i : ℕ) → check i ≡ true → bit_at bm i ≡ 1
    bit_set i e = ground (arith, check_bit i, e)

    bit_clear : (i : ℕ) → check i ≡ false → bit_at bm i ≡ 0
    bit_clear i e = ground (arith, check_bit i, e)

    -- `find_next_zero_bit`, in spite of its name, over at least one index, with an array that has
    -- the bits and an index that fits an int: it returns the lowest index from 1 on whose bit is 1,
    -- or -EPERM, and then all bits from 1 on are 0.
    pub find_next_zero_bit-first_set : Scanned (find_next_zero_bit (some bm) size)
    unfolding find_next_zero_bit int_of check
    find_next_zero_bit-first_set = scanned (first_from_lem check 1 (size - 1))
      where
        r : ℕ
        r = first_from check 1 (size - 1)

        scanned : StopsAt check 1 (size - 1) r → Scanned (find_next_zero_bit (some bm) size)
        scanned (above, clear, inl all) =
            subst Scanned (ground arith)
              (none_set (λ k lo hi. bit_clear k (clear k lo (omega arith))))
        scanned (above, clear, inr (inside, is_set)) = subst Scanned (ground arith) (
            found r above (omega arith) (bit_set r is_set) (λ k lo hi. bit_clear k (clear k lo hi)))
