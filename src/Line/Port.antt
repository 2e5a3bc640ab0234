-- ===== src/Line/Port.antt =====
-- The port of rs485.c: its name, opening and restoring it, and general_service_init of general.c.
-- The calls of the operating system on the port, and the flags of termios.h, are parameters.
use rs.Prelude.{
  ℕ, suc, Option, none, some, List, ℤ, pos, negsuc, is_neg, neg_einval, bit_or, replicate,
  if◌then◌else◌,
}
use rs.Line.Baud.{Speed, Rate, rs485_set_baud_rate}

-- `struct termios`
pub record Termios : Type 0 where
  pub c_iflag : ℕ
  pub c_oflag : ℕ
  pub c_cflag : ℕ
  pub c_lflag : ℕ
  pub c_line : ℕ
  pub c_cc : List ℕ

-- The calls on the port; `S` is `struct serial_struct`. `settle` is the sleep and the flush.
pub record SerialOs (S W : Type 0) : Type 0 where
  pub open_port : List ℕ → W → ℤ × W
  pub fcntl : ℤ → W → W
  pub tcgetattr : ℤ → W → Termios
  pub tcsetattr : ℤ → Termios → W → W
  pub get_serial : ℤ → W → S
  pub set_serial : ℤ → S → W → W
  pub settle : ℤ → W → W
  pub close : ℤ → W → W

-- The values of CS8, CLOCAL, CREAD, RS485MOD and of the B... constants, and the length of c_cc.
pub record Flags : Type 0 where
  pub cs8 : ℕ
  pub clocal : ℕ
  pub cread : ℕ
  pub rs485mod : ℕ
  pub speed_flag : Speed → ℕ
  pub nccs : ℕ

-- The static variables; `cleanups` counts what `atexit` has been given.
pub record SerialPort (S : Type 0) : Type 0 where
  pub port_name : List ℕ
  pub rate : Rate
  pub handle : ℤ
  pub oldtio : Termios
  pub oldserial : S
  pub cleanups : ℕ

-- `rs485_set_interface(ifname)`; `none` is NULL.
pub rs485_set_interface : {S : Type 0} → Option (List ℕ) → SerialPort S → SerialPort S
rs485_set_interface none s = s
rs485_set_interface (some ifname) s = record s { port_name = ifname }

-- `rs485_interface()`
pub rs485_interface : {S : Type 0} → SerialPort S → List ℕ
rs485_interface s = s.port_name

-- `object_management_t`, as far as general_service_init reads it.
pub record GeneralObject : Type 0 where
  pub interface_name : Option (List ℕ)
  pub baud_rate : ℕ

-- How the start ends: the process exits, or the call returns.
pub data Started (S W : Type 0) : Type 0 where
  exited : ℤ → W → Started S W
  returned : ℤ → SerialPort S → W → Started S W

module _ {S W : Type 0} (os : SerialOs S W) (flags : Flags) where
  -- `newtio`, all zero but for its control flags.
  pub newtio : Rate → Termios
  newtio r = record {
    c_iflag = 0;
    c_oflag = 0;
    c_cflag =
        bit_or
          (bit_or (bit_or (bit_or (flags.speed_flag r.baud) flags.cs8) flags.clocal) flags.cread)
          flags.rs485mod;
    c_lflag = 0;
    c_line = 0;
    c_cc = replicate flags.nccs 0;
  }

  -- After `open`.
  pub after_open : SerialPort S → ℤ × W → Started S W
  after_open s (fd, w) =
      let w' = os.fcntl fd w in
      let set = os.settle fd (os.tcsetattr fd (newtio s.rate) w') in
      if is_neg fd
      then exited (negsuc 0) w
      else returned (pos 0)
          (record s {
            handle = fd;
            oldtio = os.tcgetattr fd w';
            oldserial = os.get_serial fd w';
            cleanups = suc s.cleanups;
          })
          set

  -- `rs485_initialize()`; `returned` has the 0 of its caller.
  pub rs485_initialize : SerialPort S → W → Started S W
  rs485_initialize s w = after_open s (os.open_port s.port_name w)

  -- `rs485_cleanup()`
  pub rs485_cleanup : SerialPort S → W → W
  rs485_cleanup s w =
      os.close s.handle (os.set_serial s.handle s.oldserial (os.tcsetattr s.handle s.oldtio w))

  -- `general_service_init(object)`
  pub general_service_init : Option GeneralObject → SerialPort S → W → Started S W
  general_service_init none s w = returned neg_einval s w
  general_service_init (some object) s w =
      let s' = rs485_set_interface object.interface_name s in
      rs485_initialize (record s' { rate = (rs485_set_baud_rate s'.rate object.baud_rate).1 }) w
