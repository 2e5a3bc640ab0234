-- ===== src/Crc/Residue.antt =====
-- What a receiver may conclude from `modbus_crc16`: a frame followed by its checksum, low byte
-- first, has checksum zero, and no other two bytes have that effect.
use rs.Prelude.{
  ℕ, ◌<◌, ◌≡◌, refl, sym, ap, ◌∙◌, List, [], ◌∷◌, ◌++◌, ◌↔◌, Bool, true, ◌&&◌, ◌||◌, bit_xor, arith,
  all_below, all_below_sound, ltb, ◌==◌, get_or, xor_self, xor-zero, xor_byte, xor-eq-zero,
}
use native.Mathlib.Nat.{mod-eq_of_lt}
use rs.Crc.{Crc, crc_high, crc_low, crc_byte, crc_loop}

-- Both registers hold bytes.
pub record IsBytes (c : Crc) : Type 0 where
  pub lo_byte : c.lo < 256
  pub hi_byte : c.hi < 256

-- A predicate on every byte of a list.
abbrev pub AllBytes : List ℕ → Type 0
AllBytes [] = Unit
AllBytes (b ∷ bs) = (b < 256) × AllBytes bs

abbrev pub all_bytes : List ℕ → Bool
all_bytes [] = true
all_bytes (b ∷ bs) = ltb b 256 && all_bytes bs

pub all_bytes_sound : (bs : List ℕ) → all_bytes bs ≡ true → AllBytes bs
all_bytes_sound [] h = tt
all_bytes_sound (b ∷ bs) h = (ground arith, all_bytes_sound bs (ground arith))

-- What the proofs need of the tables, checked entry by entry: bytes, and zero only at index zero.
good_entry : ℕ → Bool
good_entry i =
    ltb (get_or crc_high i 0) 256
    && ltb (get_or crc_low i 0) 256
    && ((i == 0) || ltb 0 (get_or crc_low i 0))

good_entries : all_below 256 good_entry ≡ true
unfolding all_below good_entry crc_high crc_low
good_entries = refl

pub entry_facts :
    (i : ℕ)
    → i < 256
    → (get_or crc_high i 0 < 256) × (get_or crc_low i 0 < 256) × (get_or crc_low i 0 ≡ 0 → i ≡ 0)
unfolding good_entry
entry_facts i h = ground (arith, all_below_sound 256 good_entry i good_entries h)

zero_entry : (get_or crc_high 0 0 ≡ 0) × (get_or crc_low 0 0 ≡ 0)
unfolding crc_high crc_low
zero_entry = (refl, refl)

pub crc_byte-IsBytes : (c : Crc) (b : ℕ) → IsBytes c → b < 256 → IsBytes (crc_byte c b)
unfolding crc_byte
crc_byte-IsBytes c b v h =
    let facts = entry_facts (bit_xor c.lo b) (xor_byte c.lo b v.lo_byte h) in omega arith

pub crc_loop-IsBytes : (c : Crc) (bs : List ℕ) → IsBytes c → AllBytes bs → IsBytes (crc_loop c bs)
unfolding crc_loop
crc_loop-IsBytes c [] v h = v
crc_loop-IsBytes c (b ∷ bs) v h =
    crc_loop-IsBytes (crc_byte c b) bs (crc_byte-IsBytes c b v h.0) h.1

pub crc_loop-append :
    (c : Crc) (xs ys : List ℕ) → crc_loop c (xs ++ ys) ≡ crc_loop (crc_loop c xs) ys
unfolding crc_loop
crc_loop-append c [] ys = refl
crc_loop-append c (x ∷ xs) ys = crc_loop-append (crc_byte c x) xs ys

abbrev pub crc_zero : Crc
crc_zero = record { lo = 0; hi = 0 }

-- A register that takes in its own low byte shifts down.
crc_byte_own : (c : Crc) → IsBytes c → crc_byte c c.lo ≡ record { lo = c.hi; hi = 0 }
unfolding crc_byte
crc_byte_own c v =
    rw (xor_self c.lo, zero_entry.0, zero_entry.1, xor-zero c.hi, mod-eq_of_lt v.hi_byte)

own_bytes : (c : Crc) → IsBytes c → crc_byte (crc_byte c c.lo) c.hi ≡ crc_zero
own_bytes c v =
    ap (λ d. crc_byte d c.hi) (crc_byte_own c v)
    ∙ crc_byte_own (record { lo = c.hi; hi = 0 })
        (record { lo_byte = v.hi_byte; hi_byte = omega arith })

-- A byte clears the high register only if it is the low one.
cleared_hi : (c : Crc) (b : ℕ) → IsBytes c → b < 256 → (crc_byte c b).hi ≡ 0 → c.lo ≡ b
unfolding crc_byte
cleared_hi c b v h e =
    xor-eq-zero c.lo b ((entry_facts (bit_xor c.lo b) (xor_byte c.lo b v.lo_byte h)).2 e)

-- No other two bytes clear the register.
only_own_bytes :
    (c : Crc) (a b : ℕ)
    → IsBytes c
    → a < 256
    → b < 256
    → crc_byte (crc_byte c a) b ≡ crc_zero
    → (a ≡ c.lo) × (b ≡ c.hi)
only_own_bytes c a b v ha hb h = (sym first, sym second ∙ ap {B = ℕ} (λ (d : Crc). d.lo) shifted)
  where
    mid : IsBytes (crc_byte c a)
    mid = crc_byte-IsBytes c a v ha

    second : (crc_byte c a).lo ≡ b
    second = cleared_hi (crc_byte c a) b mid hb (ap (λ d. d.hi) h)

    own : crc_byte (crc_byte c a) b ≡ record { lo = (crc_byte c a).hi; hi = 0 }
    own = rw (← second) (crc_byte_own (crc_byte c a) mid)

    first : c.lo ≡ a
    first = cleared_hi c a v ha (ap (λ (d : Crc). d.lo) (sym own ∙ h))

    shifted : crc_byte c a ≡ record { lo = c.hi; hi = 0 }
    shifted = rw (← first) (crc_byte_own c v)

-- From a checksum of two bytes on, and for a frame of bytes: the checksum of the frame with two
-- more bytes is zero exactly when those are the checksum of the frame, low byte first. What the
-- sender appends is accepted, and nothing else is.
pub crc_loop-residue_iff :
    (c : Crc) (bs : List ℕ) (a b : ℕ)
    → IsBytes c
    → AllBytes bs
    → a < 256
    → b < 256
    → (crc_loop c (bs ++ (a ∷ b ∷ [])) ≡ crc_zero)
      ↔ ((a ≡ (crc_loop c bs).lo) × (b ≡ (crc_loop c bs).hi))
unfolding crc_loop
crc_loop-residue_iff c bs a b v h ha hb =
    let valid = crc_loop-IsBytes c bs v h in
    (
      (λ e.
          only_own_bytes (crc_loop c bs) a b valid ha hb
            (sym (crc_loop-append c bs (a ∷ b ∷ [])) ∙ e)),
      (λ e. crc_loop-append c bs (a ∷ b ∷ []) ∙ rw (e.0, e.1) (own_bytes (crc_loop c bs) valid)),
    )
