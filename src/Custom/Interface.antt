-- ===== src/Custom/Interface.antt =====
-- The serial port of the custom bus, app/rs485d/src/protocol/custom/interface.c. The flags of
-- termios.h are distinct bits, here the fields of a record, and the calls of the operating system are
-- parameters.
use rs.Prelude.{ℕ, ◌≡◌, Bool, true, false, ◌||◌, List, arith, ◌==◌, if◌then◌else◌}
use rs.Line.Baud.{
  Speed, Rate, rs485_set_baud_rate, b0, b50, b75, b110, b134, b150, b200, b300, b600, b1200, b1800,
  b2400, b4800, b9600, b19200, b38400, b57600, b115200, b230400,
}

-- `struct interface_profile`, with the enumerations as their numbers.
pub record InterfaceProfile : Type 0 where
  pub port_name : List ℕ
  pub baud_rate : ℕ
  pub data_bits : ℕ
  pub parity : ℕ
  pub stop_bits : ℕ

-- CS5 to CS8
pub data Size : Type 0 where
  cs5 cs6 cs7 cs8 : Size

-- `c_cflag`: CLOCAL, CREAD, the size, CSTOPB, PARENB, PARODD and the speed; RS485MOD is 0.
pub record Cflag : Type 0 where
  pub clocal : Bool
  pub cread : Bool
  pub size : Size
  pub cstopb : Bool
  pub parenb : Bool
  pub parodd : Bool
  pub speed : Speed

-- `get_baud_rate(baud)`; every call sets the static variable that it returns.
pub get_baud_rate : ℕ → Speed
get_baud_rate baud =
    if baud == 0
    then b0
    else if baud == 50
    then b50
    else if baud == 75
    then b75
    else if baud == 110
    then b110
    else if baud == 134
    then b134
    else if baud == 150
    then b150
    else if baud == 200
    then b200
    else if baud == 300
    then b300
    else if baud == 600
    then b600
    else if baud == 1200
    then b1200
    else if baud == 1800
    then b1800
    else if baud == 2400
    then b2400
    else if baud == 4800
    then b4800
    else if baud == 9600
    then b9600
    else if baud == 19200
    then b19200
    else if baud == 38400
    then b38400
    else if baud == 57600
    then b57600
    else if baud == 76800
    then b38400
    else if baud == 115200
    then b115200
    else if baud == 230400
    then b230400
    else b9600

-- The switch on `data_bits`.
pub size_of : ℕ → Size
size_of data_bits =
    if data_bits == 5
    then cs5
    else if data_bits == 6
    then cs6
    else if data_bits == 7
    then cs7
    else cs8

-- The switch on `stop_bits`: INTERFACE_STOP_BITS_1 is 1 and INTERFACE_STOP_BITS_2 is 2.
pub set_stop_bits : ℕ → Cflag → Cflag
set_stop_bits stop_bits f =
    if stop_bits == 1
    then record f { cstopb = false }
    else if stop_bits == 2
    then record f { cstopb = true }
    else record f { cstopb = false }

-- The switch on `parity`: INTERFACE_PARITY_NULL, _ODD and _EVEN are 0, 1 and 2.
pub set_parity : ℕ → Cflag → Cflag
set_parity parity f =
    if parity == 0
    then record f { parenb = false }
    else if parity == 1
    then record f { parenb = true; parodd = false }
    else if parity == 2
    then record f { parenb = true; parodd = true }
    else record f { parenb = false }

-- `parse_c_cflag(interface)`
pub parse_c_cflag : InterfaceProfile → Cflag
parse_c_cflag p =
    let start : Cflag = record {
      clocal = true;
      cread = true;
      size = size_of p.data_bits;
      cstopb = false;
      parenb = false;
      parodd = false;
      speed = b0;
    } in
    record (set_parity p.parity (set_stop_bits p.stop_bits start)) {
      speed = get_baud_rate p.baud_rate;
    }

-- What the custom bus and rs485.c make of a baud rate is the same, where rs485.c accepts it, and
-- 9600 otherwise.
pub get_baud_rate-rs485_set_baud_rate :
    (r : Rate) (baud : ℕ)
    → get_baud_rate baud
      ≡ (if (rs485_set_baud_rate r baud).0 then (rs485_set_baud_rate r baud).1.baud else b9600)
unfolding get_baud_rate rs485_set_baud_rate
get_baud_rate-rs485_set_baud_rate r baud = ground arith

-- The port has the size of the profile's data bits, two stop bits exactly for INTERFACE_STOP_BITS_2,
-- and a parity exactly for odd and even; but its odd parity is set exactly for the even one.
pub parse_c_cflag-line :
    (p : InterfaceProfile)
    → parse_c_cflag p ≡ record {
      clocal = true;
      cread = true;
      size = size_of p.data_bits;
      cstopb = p.stop_bits == 2;
      parenb = p.parity == 1 || p.parity == 2;
      parodd = p.parity == 2;
      speed = get_baud_rate p.baud_rate;
    }
unfolding parse_c_cflag set_parity set_stop_bits
parse_c_cflag-line p = ground arith
