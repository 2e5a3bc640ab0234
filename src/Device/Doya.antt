-- ===== src/Device/Doya.antt =====
-- The Dooya curtain, app/rs485d/src/device/curtain/doya/doya.c: the frame
-- 0x55, address low, address high, function, data address, data, CRC low, CRC high.
pub mod Frame
pub mod Reply
pub mod NoReply
mod Tests
use rs.Prelude.{
  ℕ, ◌+◌, ◌-◌, ◌≡◌, Bool, true, false, ◌&&◌, ◌||◌, not, Option, none, some, List, [], ◌∷◌, ◌++◌, ℤ,
  pos, neg_one, neg_eperm, neg_eio, neg_einval, u8, length, get_or, ltb, leb, ◌==◌, if◌then◌else◌,
}
use rs.Crc.{Crc, modbus_crc16}
use rs.Device.Port.{
  MstpPort, CurtainInfo, memcpy, curtain_open, curtain_close, curtain_set_percent, curtain_reset,
  curtain_get_device_info,
}

-- `command`, and any other value that the `int cmd` may hold.
pub data Command : Type 0 where
  command_open command_close command_stop command_percent command_delete : Command
  command_refactory wo_addr ro_percent rw_direction rw_handle : Command
  rw_switch_passive rw_switch_active ro_version : Command
  other : ℕ → Command

-- `struct package`, with `data[0]` to `data[3]` as fields.
pub record Package : Type 0 where
  pub addr_low : ℕ
  pub addr_high : ℕ
  pub command : ℕ
  pub data_addr : ℕ
  pub data_0 : ℕ
  pub data_1 : ℕ
  pub data_2 : ℕ
  pub data_3 : ℕ
  pub cmd : Command

-- `CURTAIN_COMMAND`, `CURTAIN_READ` and `CURTAIN_WRITE`
abbrev pub fn_command : ℕ
fn_command = 0x03

abbrev pub fn_read : ℕ
fn_read = 0x01

abbrev pub fn_write : ℕ
fn_write = 0x02

-- The buffer with the checksum of its first `len` bytes written behind them.
abbrev pub with_crc : List ℕ → ℕ → List ℕ
with_crc body len = let crc = modbus_crc16 body len in body ++ (crc.lo ∷ crc.hi ∷ [])

-- `buffer[0..5)`
abbrev pub header : Package → List ℕ
header p = 0x55 ∷ p.addr_low ∷ p.addr_high ∷ p.command ∷ p.data_addr ∷ []

abbrev pub header_1 : Package → List ℕ
header_1 p = 0x55 ∷ p.addr_low ∷ p.addr_high ∷ p.command ∷ p.data_addr ∷ p.data_0 ∷ []

abbrev pub header_2 : Package → List ℕ
header_2 p = 0x55 ∷ p.addr_low ∷ p.addr_high ∷ p.command ∷ p.data_addr ∷ p.data_0 ∷ p.data_1 ∷ []

abbrev pub header_3 : Package → List ℕ
header_3 p =
    0x55 ∷ p.addr_low ∷ p.addr_high ∷ p.command ∷ p.data_addr ∷ p.data_0 ∷ p.data_1 ∷ p.data_2 ∷ []

-- The switch of `send_package` and `doya_send_package`: the `package_len` bytes of the frame.
pub build : Command → Package → List ℕ
build command_open p = with_crc (header p) 5
build command_close p = with_crc (header p) 5
build command_stop p = with_crc (header p) 5
build command_delete p = with_crc (header p) 5
build command_refactory p = with_crc (header p) 5
build command_percent p = with_crc (header_1 p) 6
build wo_addr p = with_crc (header_3 p) 8
build ro_percent p = with_crc (header_1 p) 6
build ro_version p = with_crc (header_1 p) 6
build rw_direction p =
    if p.command == fn_read then with_crc (header_1 p) 6 else with_crc (header_2 p) 7
build rw_handle p =
    if p.command == fn_read then with_crc (header_1 p) 6 else with_crc (header_2 p) 7
build rw_switch_passive p =
    if p.command == fn_read then with_crc (header_1 p) 6 else with_crc (header_2 p) 7
build rw_switch_active p =
    if p.command == fn_read then with_crc (header_1 p) 6 else with_crc (header_2 p) 7
build (other n) p = []

-- The test at the top of both: an address to be set must have no byte 0x00 or 0xff.
pub refused : Command → Package → Bool
refused wo_addr p = (p.data_1 == 0x00 || p.data_2 == 0x00) || (p.data_1 == 0xff || p.data_2 == 0xff)
refused _ p = false

-- `doya_send_package(send_buffer, buffer_len, package)`: the result and the buffer.
pub doya_send_package : Option (List ℕ) → ℕ → Package → ℤ × Option (List ℕ)
doya_send_package none buffer_len p = (neg_one, none)
doya_send_package (some buf) buffer_len p =
    let frame = build p.cmd p in
    if refused p.cmd p
    then (neg_one, some buf)
    else if ltb buffer_len (length frame)
    then (neg_one, some buf)
    else (pos (length frame), some (memcpy buf frame))

-- `memset(&package, 0x00, sizeof(package))`: the `cmd` 0 is COMMAND_OPEN.
abbrev pub blank : Package
blank = record {
  addr_low = 0;
  addr_high = 0;
  command = 0;
  data_addr = 0;
  data_0 = 0;
  data_1 = 0;
  data_2 = 0;
  data_3 = 0;
  cmd = command_open;
}

-- The address that `doya_send_package_handle` puts into the package.
pub addressed : MstpPort → Package
addressed h =
    if h.broadcast
    then blank
    else record blank { addr_low = get_or h.address 1 0; addr_high = get_or h.address 0 0 }

-- Its switch on the method; `none` is the -1 of the default.
pub package_of : ℕ → ℕ → Package → Option Package
package_of method value p =
    if method == curtain_open
    then some (record p { cmd = command_open; command = fn_command; data_addr = 0x01 })
    else if method == curtain_close
    then some (record p { cmd = command_close; command = fn_command; data_addr = 0x02 })
    else if method == curtain_set_percent
    then some (record p {
      cmd = command_percent;
      command = fn_command;
      data_addr = 0x04;
      data_0 = u8 value;
    })
    else if method == curtain_reset
    then some p
    else if method == curtain_get_device_info
    then some (record p { cmd = ro_percent; command = fn_read; data_addr = 0x02 })
    else none

-- The handle after the test of the address: an address with low byte 0x00 expects no reply.
pub clear_reply : MstpPort → MstpPort
unfolding addressed
clear_reply h = if (addressed h).addr_low == 0x00 then record h { except_reply = false } else h

-- `doya_send_package_handle(arg)`; `none` is a NULL handle.
pub doya_send_package_handle : Option MstpPort → ℤ × Option MstpPort
doya_send_package_handle none = (neg_one, none)
doya_send_package_handle (some h) = elim h.package_buffer [
  | none ↦ (neg_one, some h)
  | some buf ↦
      if ltb h.address_len 2
      then (neg_one, some h)
      else elim (package_of h.method h.value (addressed h)) [
        | none ↦ (neg_one, some (clear_reply h))
        | some p ↦
            let (n, buffer) = doya_send_package (some buf) h.package_buffer_len p in
            (n, some (record (clear_reply h) { package_buffer = buffer }))
      ]
]

-- The test of the last two bytes of a reply of `len` bytes against a checksum.
abbrev pub crc_matches : Crc → List ℕ → ℕ → Bool
crc_matches crc buf len = crc.lo == get_or buf (len - 2) 0 && crc.hi == get_or buf (len - 1) 0

-- `doya_recv_package_handle(arg)`, with what it passes to `set_read_device_information`. A reply of
-- fewer than two bytes makes the source index before the buffer; see `Reply`.
pub doya_recv_package_handle : Option MstpPort → ℤ × Option CurtainInfo
doya_recv_package_handle none = (neg_einval, none)
doya_recv_package_handle (some h) = elim h.package_buffer [
  | none ↦ (neg_einval, none)
  | some buf ↦
      if h.method == curtain_open || h.method == curtain_close || h.method == curtain_set_percent
      then if crc_matches (modbus_crc16 buf (h.package_buffer_len - 2)) buf h.package_buffer_len
        then (pos 0, none)
        else (neg_eio, none)
      else if h.method == curtain_get_device_info
      then if not (h.package_buffer_len == 7)
        then (neg_eio, none)
        else if crc_matches (record { lo = 0; hi = 0 }) buf h.package_buffer_len
        then (
          pos 0,
          some (record { error = false; runing = true; current_percent = get_or buf 4 0 }),
        )
        else (neg_eio, none)
      else (neg_eperm, none)
]
