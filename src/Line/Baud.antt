-- ===== src/Line/Baud.antt =====
-- The baud rates of rs485.c. `Speed` are the B... constants of termios.h, which are distinct, and
-- any other value of the variable.
use rs.Prelude.{
  ℕ, ◌≡◌, ap, ◌∙◌, inl, inr, Bool-cases, Bool, true, false, arith, ◌==◌, if◌then◌else◌,
}

pub data Speed : Type 0 where
  b0 b50 b75 b110 b134 b150 b200 b300 b600 b1200 b1800 b2400 : Speed
  b4800 b9600 b19200 b38400 b57600 b115200 b230400 : Speed
  other_speed : ℕ → Speed

-- `RS485_Baud` and `RS485_SpecBaud`
pub record Rate : Type 0 where
  pub baud : Speed
  pub spec_baud : Bool

pub rs485_get_baud_rate : Rate → ℕ
rs485_get_baud_rate r = elim r.baud [
  | b0 ↦ 0
  | b50 ↦ 50
  | b75 ↦ 75
  | b110 ↦ 110
  | b134 ↦ 134
  | b150 ↦ 150
  | b200 ↦ 200
  | b300 ↦ 300
  | b600 ↦ 600
  | b1200 ↦ 1200
  | b1800 ↦ 1800
  | b2400 ↦ 2400
  | b4800 ↦ 4800
  | b9600 ↦ 9600
  | b19200 ↦ 19200
  | b38400 ↦ if r.spec_baud then 76800 else 38400
  | b57600 ↦ 57600
  | b115200 ↦ 115200
  | b230400 ↦ 230400
  | other_speed n ↦ 9600
]

unfoldable pub rs485_set_baud_rate : Rate → ℕ → Bool × Rate
rs485_set_baud_rate r baud =
    let plain : Rate = record r { spec_baud = false } in
    if baud == 0
    then (true, record plain { baud = b0 })
    else if baud == 50
    then (true, record plain { baud = b50 })
    else if baud == 75
    then (true, record plain { baud = b75 })
    else if baud == 110
    then (true, record plain { baud = b110 })
    else if baud == 134
    then (true, record plain { baud = b134 })
    else if baud == 150
    then (true, record plain { baud = b150 })
    else if baud == 200
    then (true, record plain { baud = b200 })
    else if baud == 300
    then (true, record plain { baud = b300 })
    else if baud == 600
    then (true, record plain { baud = b600 })
    else if baud == 1200
    then (true, record plain { baud = b1200 })
    else if baud == 1800
    then (true, record plain { baud = b1800 })
    else if baud == 2400
    then (true, record plain { baud = b2400 })
    else if baud == 4800
    then (true, record plain { baud = b4800 })
    else if baud == 9600
    then (true, record plain { baud = b9600 })
    else if baud == 19200
    then (true, record plain { baud = b19200 })
    else if baud == 38400
    then (true, record plain { baud = b38400 })
    else if baud == 57600
    then (true, record plain { baud = b57600 })
    else if baud == 76800
    then (true, record { baud = b38400; spec_baud = true })
    else if baud == 115200
    then (true, record plain { baud = b115200 })
    else if baud == 230400
    then (true, record plain { baud = b230400 })
    else (false, plain)

set_get :
    (r : Rate) (baud : ℕ)
    → (let s = rs485_set_baud_rate r baud in if s.0 then rs485_get_baud_rate s.1 else baud) ≡ baud
unfolding rs485_get_baud_rate rs485_set_baud_rate
set_get r baud = ground arith

refused :
    (r : Rate) (baud : ℕ)
    → (rs485_set_baud_rate r baud).0 ≡ false
    → (rs485_set_baud_rate r baud).1 ≡ record r { spec_baud = false }
unfolding rs485_set_baud_rate
refused r baud e = ground arith

-- Without the special divisor, 76800 reads as 38400, and every other rate is the same.
get_plain :
    (b : Speed) (s : Bool)
    → rs485_get_baud_rate (record { baud = b; spec_baud = false }) ≡ (
        let old = rs485_get_baud_rate (record { baud = b; spec_baud = s }) in
        if old == 76800 then 38400 else old)
unfolding rs485_get_baud_rate
get_plain b s = ground arith

-- A rate that is taken is the rate that is read back. One that is refused leaves the rate, but for
-- 76800, which falls back to 38400.
pub rs485_get_baud_rate-rs485_set_baud_rate :
    (r : Rate) (baud : ℕ)
    → let s = rs485_set_baud_rate r baud in
      rs485_get_baud_rate s.1 ≡ (
        if s.0
        then baud
        else if rs485_get_baud_rate r == 76800
        then 38400
        else rs485_get_baud_rate r)
rs485_get_baud_rate-rs485_set_baud_rate r baud = elim (Bool-cases (rs485_set_baud_rate r baud).0) [
  | inl taken ↦ ground (arith, set_get r baud)
  | inr bad ↦ rw bad (ap rs485_get_baud_rate (refused r baud bad) ∙ get_plain r.baud r.spec_baud)
]
