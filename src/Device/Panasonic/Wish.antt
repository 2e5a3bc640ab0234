-- ===== src/Device/Panasonic/Wish.antt =====
-- What an air conditioner reads from the frames of the Panasonic driver, and what the client's
-- methods mean to it.
use rs.Prelude.{
  ℕ, ◌+◌, ◌/◌, ◌%◌, ◌<◌, ◌≡◌, ◌⊎◌, inl, inr, refl, sym, ap, subst, true, ◌&&◌, Option, none, some,
  List, [], ◌∷◌, arith, length, get_or, take, leb, ◌==◌, if◌then◌else◌, all_below, all_below_sound,
}
use rs.Device.Loreley.Sum.{sum, sum_loop-sum}
use rs.Device.Panasonic.{
  air_command_table, setting_cases, command_at, calculate_sum_check, sealed, build, row_of,
  command_of,
}

-- What a frame asks of the air conditioner.
pub data Wish : Type 0 where
  temperature : ℕ → Wish
  swing : ℕ → Wish
  fan : ℕ → Wish
  mode : ℕ → Wish
  power : ℕ → Wish
  report : Wish

-- The five bytes of a command: which setting, the mode and the power as two half bytes, the fan and
-- the swing as two half bytes, and the temperature in half degrees.
unfoldable pub decode_setting : List ℕ → Option Wish
decode_setting (option ∷ b ∷ c ∷ d ∷ e ∷ []) =
    if option == 5
    then some (temperature (d / 2))
    else if option == 4
    then some (swing (c % 16))
    else if option == 3
    then some (fan (c / 16))
    else if option == 2
    then some (mode (b / 16))
    else if option == 1
    then some (power (b % 16))
    else none
decode_setting _ = none

-- The command 2 asks for a report, and the command 3 carries a setting.
unfoldable pub decode_data : ℕ → List ℕ → Option Wish
decode_data cid l = if cid == 2 then some report else if cid == 3 then decode_setting l else none

-- The address with the wish, or `none`.
unfoldable pub at_address : ℕ → Option Wish → Option (ℕ × Wish)
at_address addr none = none
at_address addr (some wish) = some (addr, wish)

-- Address and wish of a frame: 0xaa, address, command, 0x60, the number of data bytes, the data, a
-- byte that makes the sum from the address on zero modulo 256, and 0x0d.
unfoldable pub decode : List ℕ → Option (ℕ × Wish)
decode (soi ∷ addr ∷ cid ∷ rtn ∷ n ∷ rest) =
    if soi == 0xaa
      && rtn == 0x60
      && length rest == n + 2
      && sum (addr ∷ cid ∷ rtn ∷ n ∷ rest) (n + 5) % 256 == 0
      && get_or rest (n + 1) 0 == 0x0d
    then at_address addr (decode_data cid (take n rest))
    else none
decode _ = none

-- What a method means: the temperatures by their degrees, and the codes of the air conditioner for
-- swing, fan, mode and power.
unfoldable pub meaning : ℕ → Option Wish
meaning method =
    if leb 18 method && leb method 30
    then some (temperature method)
    else if method == 41
    then some (swing 0xe)
    else if method == 42
    then some (swing 4)
    else if method == 43
    then some (swing 5)
    else if method == 44
    then some (swing 3)
    else if method == 51
    then some (fan 0xa)
    else if method == 52
    then some (fan 7)
    else if method == 53
    then some (fan 5)
    else if method == 54
    then some (fan 3)
    else if method == 61
    then some (mode 6)
    else if method == 62
    then some (mode 4)
    else if method == 63
    then some (mode 3)
    else if method == 64
    then some (mode 2)
    else if method == 65
    then some (mode 0)
    else if method == 71
    then some (power 0)
    else if method == 72
    then some (power 1)
    else if method == 81
    then some report
    else none

-- The wish of a command of the switch.
unfoldable pub wish_of : Option (ℕ × List ℕ × ℕ) → Option Wish
wish_of none = none
wish_of (some c) = decode_data c.0 c.1

pub command_of-meaning : (method : ℕ) → wish_of (command_of method) ≡ meaning method
unfolding wish_of command_of command_at row_of meaning decode_data decode_setting
command_of-meaning method = ground arith

calculate_sum_check_lem : (l : List ℕ) (n : ℕ) → (sum l n + calculate_sum_check l n) % 256 ≡ 0
unfolding calculate_sum_check
calculate_sum_check_lem l n = omega (arith, sum_loop-sum 0 l n (omega arith))

-- A command that the switch sends: the question without data, or a setting of five bytes.
unfoldable pub IsCommand : ℕ × List ℕ × ℕ → Type 0
IsCommand c =
    (c ≡ (2, [], 0))
    ⊎ ((b0 : ℕ) × (b1 : ℕ) × (b2 : ℕ) × (b3 : ℕ) × (b4 : ℕ) × (c
          ≡ (3, b0 ∷ b1 ∷ b2 ∷ b3 ∷ b4 ∷ [], 5)))

-- The number of bytes of the frame of a wish.
unfoldable pub frame_length : Wish → ℕ
frame_length report = 7
frame_length _ = 12

unfoldable pub read : Option (List ℕ) → Option (ℕ × Wish)
read none = none
read (some frame) = decode frame

unfoldable pub frame_of : ℕ → Option (ℕ × List ℕ × ℕ) → Option (List ℕ)
frame_of addr none = none
frame_of addr (some c) = build addr c.0 c.1

pub read-frame_of :
    (addr : ℕ) (c : ℕ × List ℕ × ℕ)
    → IsCommand c
    → read (frame_of addr (some c)) ≡ at_address addr (wish_of (some c))
unfolding IsCommand read frame_of decode build sealed wish_of
read-frame_of addr c (inl e) =
    subst (λ d. read (frame_of addr (some d)) ≡ at_address addr (wish_of (some d))) (sym e)
      (ground (arith, calculate_sum_check_lem (addr ∷ 2 ∷ 0x60 ∷ 0 ∷ []) 4))
read-frame_of addr c (inr (b0, b1, b2, b3, b4, e)) =
    subst (λ d. read (frame_of addr (some d)) ≡ at_address addr (wish_of (some d))) (sym e)
      (ground
        (arith, calculate_sum_check_lem (addr ∷ 3 ∷ 0x60 ∷ 5 ∷ b0 ∷ b1 ∷ b2 ∷ b3 ∷ b4 ∷ []) 9))

row-five : (i : ℕ) → i < 34 → (length (get_or air_command_table i []) == 5) ≡ true
unfolding all_below
row-five i below =
    all_below_sound 34 (λ k. length (get_or air_command_table k []) == 5) i refl below

five :
    (l : List ℕ)
    → (length l == 5) ≡ true
    → (b0 : ℕ) × (b1 : ℕ) × (b2 : ℕ) × (b3 : ℕ) × (b4 : ℕ) × (l ≡ b0 ∷ b1 ∷ b2 ∷ b3 ∷ b4 ∷ [])
five (b0 ∷ b1 ∷ b2 ∷ b3 ∷ b4 ∷ []) e = (b0, b1, b2, b3, b4, refl)
five [] e = absurd (ground arith)
five (b0 ∷ []) e = absurd (ground arith)
five (b0 ∷ b1 ∷ []) e = absurd (ground arith)
five (b0 ∷ b1 ∷ b2 ∷ []) e = absurd (ground arith)
five (b0 ∷ b1 ∷ b2 ∷ b3 ∷ []) e = absurd (ground arith)
five (b0 ∷ b1 ∷ b2 ∷ b3 ∷ b4 ∷ b5 ∷ l) e = absurd (ground arith)

setting-IsCommand : (i : ℕ) → i < 34 → IsCommand (3, get_or air_command_table i [], 5)
unfolding IsCommand
setting-IsCommand i below =
    let (b0, b1, b2, b3, b4, e) = five (get_or air_command_table i []) (row-five i below) in
    inr (b0, b1, b2, b3, b4, ap (λ l. (3, l, 5)) e)

row_of-below : (method : ℕ) {i : ℕ} → row_of setting_cases method ≡ some i → i < 34
unfolding row_of
row_of-below method e = ground arith

command_at-IsCommand :
    (o : Option ℕ) (method : ℕ) {c : ℕ × List ℕ × ℕ}
    → ((i : ℕ) → o ≡ some i → i < 34)
    → command_at o method ≡ some c
    → IsCommand c
unfolding command_at IsCommand
command_at-IsCommand (some i) method below e =
    subst IsCommand (ground arith) (setting-IsCommand i (below i refl))
command_at-IsCommand none method below e = inl (ground arith)

pub command_of-IsCommand :
    (method : ℕ) {c : ℕ × List ℕ × ℕ} → command_of method ≡ some c → IsCommand c
unfolding command_of
command_of-IsCommand method e =
    command_at-IsCommand (row_of setting_cases method) method (λ i. row_of-below method) e
