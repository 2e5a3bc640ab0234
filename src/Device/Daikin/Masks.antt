-- ===== src/Device/Daikin/Masks.antt =====
-- The masks of the driver on a 16-bit word: a field that is cleared, and one that is put in its place.
use rs.Prelude.{
  ℕ, ◌+◌, ◌*◌, ◌/◌, ◌%◌, ◌<◌, ◌≡◌, refl, ap, ap₂, ◌∙◌, true, ◌&&◌, bit_and, bit_or, bit_and_split,
  bit_or_split, bit_or-zero, zero_or, ◌==◌, all_below, all_below_sound, arith,
}

low_all : all_below 4096 (λ r. (bit_and r 4095 == r) && (bit_and r 255 == r % 256)) ≡ true
unfolding all_below
low_all = refl

nibble_all : all_below 16 (λ q. (bit_and q 0 == 0) && (bit_and q 15 == q)) ≡ true
unfolding all_below
nibble_all = refl

and-low : (r : ℕ) → r < 4096 → (bit_and r 4095 ≡ r) × (bit_and r 255 ≡ r % 256)
and-low r small =
    let t =
      all_below_sound 4096 (λ r. (bit_and r 4095 == r) && (bit_and r 255 == r % 256)) r low_all
        small in
    (ground (arith, t), ground (arith, t))

and-nibble : (q : ℕ) → q < 16 → (bit_and q 0 ≡ 0) × (bit_and q 15 ≡ q)
and-nibble q small =
    let t =
      all_below_sound 16 (λ q. (bit_and q 0 == 0) && (bit_and q 15 == q)) q nibble_all small in
    (ground (arith, t), ground (arith, t))

-- The masks of the driver clear one field.
pub keep_0fff : (w : ℕ) → w < 65536 → bit_and w 0x0fff ≡ w % 4096
keep_0fff w small =
    ap (λ a. bit_and a 0x0fff) (omega arith)
    ∙ bit_and_split 12 (w / 4096) 0 (w % 4096) 4095 (omega arith) (omega arith)
    ∙ omega (arith, (and-nibble (w / 4096) (omega arith)).0, (and-low (w % 4096) (omega arith)).0)

pub keep_f0ff : (w : ℕ) → w < 65536 → bit_and w 0xf0ff ≡ w / 4096 * 4096 + w % 256
keep_f0ff w small =
    ap (λ a. bit_and a 0xf0ff) (omega arith)
    ∙ bit_and_split 12 (w / 4096) 15 (w % 4096) 255 (omega arith) (omega arith)
    ∙ omega (arith, (and-nibble (w / 4096) (omega arith)).1, (and-low (w % 4096) (omega arith)).1)

pub keep_fff0 : (w : ℕ) → w < 65536 → bit_and w 0xfff0 ≡ w / 16 * 16
keep_fff0 w small =
    ap (λ a. bit_and a 0xfff0) (omega arith)
    ∙ bit_and_split 4 (w / 16) 4095 (w % 16) 0 (omega arith) (omega arith)
    ∙ omega (arith, (and-low (w / 16) (omega arith)).0, (and-nibble (w % 16) (omega arith)).0)

-- A field put over a word in which it is clear.
pub or_fan : (v l : ℕ) → l < 4096 → bit_or (v * 4096) l ≡ v * 4096 + l
or_fan v l small =
    ap₂ bit_or (omega arith) (omega arith)
    ∙ bit_or_split 12 v 0 0 l (omega arith) small
    ∙ omega (arith, bit_or-zero v, zero_or l)

pub or_swing :
    (v q l : ℕ) → v < 16 → l < 256 → bit_or (v * 256) (q * 4096 + l) ≡ q * 4096 + v * 256 + l
or_swing v q l field small =
    ap (λ a. bit_or a (q * 4096 + l)) (omega arith)
    ∙ bit_or_split 12 0 q (v * 256) l (omega arith) (omega arith)
    ∙ omega (arith, zero_or q, byte)
  where
    byte : bit_or (v * 256) l ≡ v * 256 + l
    byte =
        ap₂ bit_or (omega arith) (omega arith)
        ∙ bit_or_split 8 v 0 0 l (omega arith) small
        ∙ omega (arith, bit_or-zero v, zero_or l)

pub or_low : (v q : ℕ) → v < 16 → bit_or v (q * 16) ≡ q * 16 + v
or_low v q field =
    ap₂ bit_or (omega arith) (omega arith)
    ∙ bit_or_split 4 0 q v 0 field (omega arith)
    ∙ omega (arith, bit_or-zero v, zero_or q)
