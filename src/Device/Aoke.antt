-- ===== src/Device/Aoke.antt =====
-- The Aoke curtain, app/rs485d/src/device/curtain/aoke/aoke.c: the frame
-- 0x9a, three address bytes, command, data, check.
pub mod Frame
mod Tests
use rs.Prelude.{
  ℕ, ◌≡◌, Bool, true, false, not, Option, none, some, List, [], ◌∷◌, ℤ, pos, neg_one, u8, get_or,
  bit_xor, ltb, ◌==◌, if◌then◌else◌,
}
use rs.Device.Port.{
  MstpPort, memcpy, curtain_open, curtain_close, curtain_set_percent, curtain_get_device_info,
}

-- `rs485_curtain_ao_ke_send_package_t`
pub record Package : Type 0 where
  pub d1 : ℕ
  pub d2 : ℕ
  pub d3 : ℕ
  pub d4 : ℕ
  pub d5 : ℕ

-- RS485_CURTAIN_AO_KE_SI and the commands
abbrev pub start_byte : ℕ
start_byte = 0x9a

abbrev pub command_control : ℕ
command_control = 0x0a

abbrev pub command_postion : ℕ
command_postion = 0xdd

abbrev pub control_up : ℕ
control_up = 0xdd

abbrev pub control_down : ℕ
control_down = 0xee

pub get_check : Package → ℕ
get_check p = bit_xor (bit_xor (bit_xor (bit_xor (bit_xor 0 p.d1) p.d2) p.d3) p.d4) p.d5

-- The switch on the method; `none` is the -1 of the default.
pub package_of : ℕ → ℕ → List ℕ → Option Package
package_of method value address =
    let addressed : Package = record {
      d1 = get_or address 0 0;
      d2 = get_or address 1 0;
      d3 = get_or address 2 0;
      d4 = command_control;
      d5 = 0;
    } in
    if method == curtain_open
    then some (record addressed { d5 = control_down })
    else if method == curtain_close
    then some (record addressed { d5 = control_up })
    else if method == curtain_set_percent
    then some (record addressed { d4 = command_postion; d5 = u8 value })
    else if method == curtain_get_device_info
    then some (record { d1 = 0; d2 = 0; d3 = 0; d4 = 0; d5 = 0 })
    else none

-- The seven stores at the end.
pub bytes_of : Package → List ℕ
unfolding get_check
bytes_of p = start_byte ∷ p.d1 ∷ p.d2 ∷ p.d3 ∷ p.d4 ∷ p.d5 ∷ get_check p ∷ []

-- A broadcast overwrites the address of the handle.
pub set_broadcast : MstpPort → MstpPort
set_broadcast h =
    if h.broadcast then record h { address = memcpy h.address (0x00 ∷ 0xff ∷ 0xff ∷ []) } else h

-- What the switch leads to: -1, or the stores into the buffer.
pub store : MstpPort → List ℕ → Option Package → ℤ × Option MstpPort
store h buf none = (neg_one, some h)
store h buf (some p) = (pos 7, some (record h { package_buffer = some (memcpy buf (bytes_of p)) }))

-- `aoke_send_package_handle(arg)`; `none` is a NULL handle.
pub aoke_send_package_handle : Option MstpPort → ℤ × Option MstpPort
aoke_send_package_handle none = (neg_one, none)
aoke_send_package_handle (some h) = elim h.package_buffer [
  | none ↦ (neg_one, some h)
  | some buf ↦
      if not (h.address_len == 3)
      then (neg_one, some h)
      else if ltb h.package_buffer_len 7
      then (neg_one, some h)
      else let h' = set_broadcast h in store h' buf (package_of h.method h.value h'.address)
]

-- `aoke_recv_package_handle(arg)` takes every reply.
pub aoke_recv_package_handle : Option MstpPort → ℤ
aoke_recv_package_handle h = pos 0
