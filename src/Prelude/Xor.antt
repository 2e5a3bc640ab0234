-- ===== src/Prelude/Xor.antt =====
-- Exclusive or at variables, from the equation for the lowest digit.
use Prim.Native.Nat.{ℕ, zero, suc, ◌+◌, ◌*◌, ◌/◌, ◌%◌, ◌^◌, ◌≤◌, ◌<◌, bit_xor, differ}
use Prim.Native.Nat.{bit_xor-bitwise}
use mathlib.Core.Path.{◌≡◌, refl, ◌∙◌, sym, ap}
use native.Mathlib.Nat.{pow-suc}
use native.Mathlib.Omega.{arith}
use rs.Prelude.Bits.{bit_xor_step}

differ_digits : (x y : ℕ) → x < 2 → y < 2 → differ x y ≡ (x + y) % 2
differ_digits zero y hx hy = omega arith
differ_digits (suc zero) zero hx hy = refl
differ_digits (suc zero) (suc zero) hx hy = refl
differ_digits (suc zero) (suc (suc y)) hx hy = absurd (omega arith)
differ_digits (suc (suc x)) y hx hy = absurd (omega arith)

xor_step : (a b : ℕ) → bit_xor a b ≡ bit_xor (a / 2) (b / 2) * 2 + (a + b) % 2
xor_step a b =
    omega (arith, bit_xor_step a b, differ_digits (a % 2) (b % 2) (omega arith) (omega arith))

pub xor-half : (a b : ℕ) → bit_xor a b / 2 ≡ bit_xor (a / 2) (b / 2)
xor-half a b = omega (arith, xor_step a b)

pub xor-parity : (a b : ℕ) → bit_xor a b % 2 ≡ (a + b) % 2
xor-parity a b = omega (arith, xor_step a b)

pub zero-xor : (b : ℕ) → bit_xor 0 b ≡ b
zero-xor b = bit_xor-bitwise 0 b

comm_fuel : (n a b : ℕ) → a ≤ n → b ≤ n → bit_xor a b ≡ bit_xor b a
comm_fuel zero zero zero p q = refl
comm_fuel zero zero (suc b) p q = absurd (omega arith)
comm_fuel zero (suc a) b p q = absurd (omega arith)
comm_fuel (suc n) a b p q =
    omega
      (arith, xor_step a b, xor_step b a, comm_fuel n (a / 2) (b / 2) (omega arith) (omega arith))

pub xor_comm : (a b : ℕ) → bit_xor a b ≡ bit_xor b a
xor_comm a b = comm_fuel (a + b) a b (omega arith) (omega arith)

pub xor-zero : (a : ℕ) → bit_xor a 0 ≡ a
xor-zero a = xor_comm a 0 ∙ zero-xor a

self_fuel : (n a : ℕ) → a ≤ n → bit_xor a a ≡ 0
self_fuel n zero p = refl
self_fuel zero (suc a) p = absurd (omega arith)
self_fuel (suc n) (suc a) p =
    omega (arith, xor_step (suc a) (suc a), self_fuel n (suc a / 2) (omega arith))

pub xor_self : (a : ℕ) → bit_xor a a ≡ 0
xor_self a = self_fuel a a (omega arith)

assoc_fuel :
    (n a b c : ℕ) → a ≤ n → b ≤ n → c ≤ n → bit_xor (bit_xor a b) c ≡ bit_xor a (bit_xor b c)
assoc_fuel zero zero b c p q r = rw (zero-xor b, zero-xor (bit_xor b c))
assoc_fuel zero (suc a) b c p q r = absurd (omega arith)
assoc_fuel (suc n) a b c p q r =
    let ih = assoc_fuel n (a / 2) (b / 2) (c / 2) (omega arith) (omega arith) (omega arith) in
    xor_step (bit_xor a b) c
    ∙ rw (xor-half a b, ih, ← xor-half b c)
        (omega (arith, xor_step a (bit_xor b c), xor-parity a b, xor-parity b c))

pub xor_assoc : (a b c : ℕ) → bit_xor (bit_xor a b) c ≡ bit_xor a (bit_xor b c)
xor_assoc a b c = assoc_fuel (a + b + c) a b c (omega arith) (omega arith) (omega arith)

-- Xor with the same number twice gives the first one back.
pub xor_cancel : (a b : ℕ) → bit_xor a (bit_xor a b) ≡ b
xor_cancel a b = sym (xor_assoc a a b) ∙ rw (xor_self a) (zero-xor b)

pub xor-lt-pow : (k a b : ℕ) → a < 2 ^ k → b < 2 ^ k → bit_xor a b < 2 ^ k
xor-lt-pow zero zero b p q = rw (zero-xor b) q
xor-lt-pow zero (suc a) b p q = absurd (omega arith)
xor-lt-pow (suc k) a b p q = omega (
  arith,
  pow-suc 2 k,
  xor_step a b,
  xor-lt-pow k (a / 2) (b / 2) (omega (arith, pow-suc 2 k)) (omega (arith, pow-suc 2 k)),
)

pub xor_byte : (a b : ℕ) → a < 256 → b < 256 → bit_xor a b < 256
xor_byte a b p q = xor-lt-pow 8 a b p q

-- A result of zero means that the two are equal.
pub xor-eq-zero : (a b : ℕ) → bit_xor a b ≡ 0 → a ≡ b
xor-eq-zero a b h = sym (xor-zero a) ∙ rw (← h) (xor_cancel a b)

-- Xor of a number above `k` bits with one of `k` bits is their sum.
pub xor_fields : (k q r : ℕ) → r < 2 ^ k → bit_xor (q * 2 ^ k) r ≡ q * 2 ^ k + r
xor_fields zero q zero fits = rw (xor-zero (q * 1)) (omega arith)
xor_fields zero q (suc r) fits = absurd (omega arith)
xor_fields (suc k) q r fits =
    let double : q * 2 ^ suc k ≡ 2 * (q * 2 ^ k) =
      omega (arith, pow-suc 2 k, ap (λ (t : ℕ). q * t) (pow-suc 2 k)) in
    let half : q * 2 ^ suc k / 2 ≡ q * 2 ^ k = omega arith in
    let ih : bit_xor (q * 2 ^ suc k / 2) (r / 2) ≡ q * 2 ^ k + r / 2 =
      rw half (xor_fields k q (r / 2) (omega (arith, pow-suc 2 k))) in
    omega (arith, xor_step (q * 2 ^ suc k) r)
