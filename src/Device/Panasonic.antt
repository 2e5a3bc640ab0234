-- ===== src/Device/Panasonic.antt =====
-- The Panasonic air conditioner, app/rs485d/src/device/airCondition/panasonnic/panasonnic.c, as it is
-- built: without PANASONNIC_EXTEND and without the functions that stand under #if 0.
pub mod Wish
pub mod Frame
mod Tests
use rs.Prelude.{
  ℕ, ◌+◌, ◌-◌, ◌%◌, ◌^◌, ◌≡◌, Bool, true, false, ◌&&◌, ◌||◌, not, Option, none, some, List, [], ◌∷◌,
  ◌++◌, ℤ, pos, negsuc, neg_one, neg_eperm, u8, u32, length, get_or, drop, ltb, leb, ◌==◌,
  if◌then◌else◌,
}
use rs.Device.Port.{MstpPort, memcpy}
use rs.Device.Loreley.{sum_loop}

-- GET_AIR_ADDR_CID_SEND and its kin
abbrev pub get_air_addr_cid : ℕ
get_air_addr_cid = 0x01

abbrev pub get_air_info_cid : ℕ
get_air_info_cid = 0x02

abbrev pub set_air_arg_cid : ℕ
set_air_arg_cid = 0x03

abbrev pub reset_air_cid : ℕ
reset_air_cid = 0x04

-- SOI_SEND, RTN_SEND, EOI, PACKAGE_MAX and ARG_ERROR
abbrev pub soi_send : ℕ
soi_send = 0xaa

abbrev pub rtn_send : ℕ
rtn_send = 0x60

abbrev pub eoi : ℕ
eoi = 0x0d

abbrev pub package_max : ℕ
package_max = 20

abbrev pub arg_error : ℤ
arg_error = negsuc 6

-- `air_command_table`
abbrev pub air_command_table : List (List ℕ)
air_command_table =
    (0x05 ∷ 0x00 ∷ 0x00 ∷ 0x20 ∷ 0x00 ∷ [])
    ∷ (0x05 ∷ 0x00 ∷ 0x00 ∷ 0x22 ∷ 0x00 ∷ [])
    ∷ (0x05 ∷ 0x00 ∷ 0x00 ∷ 0x24 ∷ 0x00 ∷ [])
    ∷ (0x05 ∷ 0x00 ∷ 0x00 ∷ 0x26 ∷ 0x00 ∷ [])
    ∷ (0x05 ∷ 0x00 ∷ 0x00 ∷ 0x28 ∷ 0x00 ∷ [])
    ∷ (0x05 ∷ 0x00 ∷ 0x00 ∷ 0x2a ∷ 0x00 ∷ [])
    ∷ (0x05 ∷ 0x00 ∷ 0x00 ∷ 0x2c ∷ 0x00 ∷ [])
    ∷ (0x05 ∷ 0x00 ∷ 0x00 ∷ 0x2e ∷ 0x00 ∷ [])
    ∷ (0x05 ∷ 0x00 ∷ 0x00 ∷ 0x30 ∷ 0x00 ∷ [])
    ∷ (0x05 ∷ 0x00 ∷ 0x00 ∷ 0x32 ∷ 0x00 ∷ [])
    ∷ (0x05 ∷ 0x00 ∷ 0x00 ∷ 0x34 ∷ 0x00 ∷ [])
    ∷ (0x05 ∷ 0x00 ∷ 0x00 ∷ 0x36 ∷ 0x00 ∷ [])
    ∷ (0x05 ∷ 0x00 ∷ 0x00 ∷ 0x38 ∷ 0x00 ∷ [])
    ∷ (0x05 ∷ 0x00 ∷ 0x00 ∷ 0x3a ∷ 0x00 ∷ [])
    ∷ (0x05 ∷ 0x00 ∷ 0x00 ∷ 0x3c ∷ 0x00 ∷ [])
    ∷ (0x04 ∷ 0x00 ∷ 0x0e ∷ 0x00 ∷ 0x00 ∷ [])
    ∷ (0x04 ∷ 0x00 ∷ 0x05 ∷ 0x00 ∷ 0x00 ∷ [])
    ∷ (0x04 ∷ 0x00 ∷ 0x04 ∷ 0x00 ∷ 0x00 ∷ [])
    ∷ (0x04 ∷ 0x00 ∷ 0x03 ∷ 0x00 ∷ 0x00 ∷ [])
    ∷ (0x04 ∷ 0x00 ∷ 0x02 ∷ 0x00 ∷ 0x00 ∷ [])
    ∷ (0x04 ∷ 0x00 ∷ 0x01 ∷ 0x00 ∷ 0x00 ∷ [])
    ∷ (0x03 ∷ 0x00 ∷ 0xa0 ∷ 0x00 ∷ 0x00 ∷ [])
    ∷ (0x03 ∷ 0x00 ∷ 0x70 ∷ 0x00 ∷ 0x00 ∷ [])
    ∷ (0x03 ∷ 0x00 ∷ 0x50 ∷ 0x00 ∷ 0x00 ∷ [])
    ∷ (0x03 ∷ 0x00 ∷ 0x30 ∷ 0x00 ∷ 0x00 ∷ [])
    ∷ (0x03 ∷ 0x00 ∷ 0x90 ∷ 0x00 ∷ 0x00 ∷ [])
    ∷ (0x03 ∷ 0x00 ∷ 0xb0 ∷ 0x00 ∷ 0x00 ∷ [])
    ∷ (0x02 ∷ 0x60 ∷ 0x00 ∷ 0x00 ∷ 0x00 ∷ [])
    ∷ (0x02 ∷ 0x40 ∷ 0x00 ∷ 0x00 ∷ 0x00 ∷ [])
    ∷ (0x02 ∷ 0x30 ∷ 0x00 ∷ 0x00 ∷ 0x00 ∷ [])
    ∷ (0x02 ∷ 0x20 ∷ 0x00 ∷ 0x00 ∷ 0x00 ∷ [])
    ∷ (0x02 ∷ 0x00 ∷ 0x00 ∷ 0x00 ∷ 0x00 ∷ [])
    ∷ (0x01 ∷ 0x00 ∷ 0x00 ∷ 0x00 ∷ 0x00 ∷ [])
    ∷ (0x01 ∷ 0x01 ∷ 0x00 ∷ 0x00 ∷ 0x00 ∷ [])
    ∷ []

-- `calculate_sum_check(value, length)`, with the loop of the Loreley driver, letter by letter.
pub calculate_sum_check : List ℕ → ℕ → ℕ
calculate_sum_check value length = u8 (255 - sum_loop 0 value length % 256 + 1)

-- The bytes before the sum check, their sum check from the byte 1 on over `n` bytes, and the end.
pub sealed : List ℕ → ℕ → List ℕ
sealed send_buf n = send_buf ++ (calculate_sum_check (drop 1 send_buf) n ∷ eoi ∷ [])

-- The switch of `panasonnic_send_package`: the `package_len` bytes, or `none` for the default.
pub build : ℕ → ℕ → List ℕ → Option (List ℕ)
build addr cid bytes =
    if cid == get_air_addr_cid || cid == reset_air_cid || cid == get_air_info_cid
    then some (sealed (soi_send ∷ addr ∷ cid ∷ rtn_send ∷ 0 ∷ []) 4)
    else if cid == set_air_arg_cid
    then some (
        sealed
          (soi_send
            ∷ addr
            ∷ cid
            ∷ rtn_send
            ∷ 5
            ∷ get_or bytes 0 0
            ∷ get_or bytes 1 0
            ∷ get_or bytes 2 0
            ∷ get_or bytes 3 0
            ∷ get_or bytes 4 0
            ∷ [])
          9)
    else none

-- `out_len < package_len`, where `out_len` is the caller's unsigned length as an `int`.
pub too_short : ℕ → ℕ → Bool
too_short out_len package_len = leb (2 ^ 31) (u32 out_len) || ltb (u32 out_len) package_len

-- `panasonnic_send_package(out, out_len, addr, msg_cid, data, data_len)`: the result and `out`.
pub panasonnic_send_package : List ℕ → ℕ → ℕ → ℕ → List ℕ → ℕ → ℤ × List ℕ
panasonnic_send_package out out_len addr cid bytes data_len =
    if leb package_max (data_len + 7) then (arg_error, out) else elim (build addr cid bytes) [
      | none ↦ (arg_error, out)
      | some frame ↦
          if too_short out_len (length frame)
          then (neg_eperm, out)
          else (pos (length frame), memcpy out frame)
    ]

-- A method and the row of `air_command_table` that its case sends: the temperatures from
-- RS485_AIR_SET_TEMP_18 on,
abbrev pub temperature_cases : List (ℕ × ℕ)
temperature_cases =
    (18, 2)
    ∷ (19, 3)
    ∷ (20, 4)
    ∷ (21, 5)
    ∷ (22, 6)
    ∷ (23, 7)
    ∷ (24, 8)
    ∷ (25, 9)
    ∷ (26, 10)
    ∷ (27, 11)
    ∷ (28, 12)
    ∷ (29, 13)
    ∷ (30, 14)
    ∷ []

-- RS485_AIR_SWING_AUTO, LEFT_RIGHT, UP_DOWN and UP_DOWN_LEFT_RIGHT,
abbrev pub swing_cases : List (ℕ × ℕ)
swing_cases = (41, 15) ∷ (43, 16) ∷ (42, 17) ∷ (44, 18) ∷ []

-- RS485_AIR_FAN_AUTO, HIGH, MIDDLE and LOW,
abbrev pub fan_cases : List (ℕ × ℕ)
fan_cases = (51, 21) ∷ (52, 22) ∷ (53, 23) ∷ (54, 24) ∷ []

-- RS485_AIR_MODE_FANING, HEATING, COOLING, DRYING and AUTOING,
abbrev pub mode_cases : List (ℕ × ℕ)
mode_cases = (61, 27) ∷ (62, 28) ∷ (63, 29) ∷ (64, 30) ∷ (65, 31) ∷ []

-- RS485_AIR_OFF and RS485_AIR_ON.
abbrev pub switch_cases : List (ℕ × ℕ)
switch_cases = (71, 32) ∷ (72, 33) ∷ []

-- The case of a method.
pub row_of : List (ℕ × ℕ) → ℕ → Option ℕ
row_of [] method = none
row_of (c ∷ cases) method =
    let rest = row_of cases method in if method == c.0 then some c.1 else rest

abbrev pub setting_cases : List (ℕ × ℕ)
setting_cases = temperature_cases ++ (swing_cases ++ (fan_cases ++ (mode_cases ++ switch_cases)))

-- The command, the data and their number in the switch of `panasonnic_send_package_handle`: those of
-- a row, or the question of RS485_AIR_GET_DEVICE_INFO.
pub command_at : Option ℕ → ℕ → Option (ℕ × List ℕ × ℕ)
command_at (some i) method = some (set_air_arg_cid, get_or air_command_table i [], 5)
command_at none method = if method == 81 then some (get_air_info_cid, [], 0) else none

pub command_of : ℕ → Option (ℕ × List ℕ × ℕ)
command_of method = command_at (row_of setting_cases method) method

-- `panasonnic_send_package_handle(arg)`; `none` is a NULL handle. A method of no case returns 0.
pub panasonnic_send_package_handle : Option MstpPort → ℤ × Option MstpPort
panasonnic_send_package_handle none = (neg_eperm, none)
panasonnic_send_package_handle (some h) = elim h.package_buffer [
  | none ↦ (neg_eperm, some h)
  | some buf ↦
      if not (h.address_len == 1) then (neg_eperm, some h) else elim (command_of h.method) [
        | none ↦ (pos 0, some h)
        | some c ↦
            let (n, buf') =
              panasonnic_send_package buf h.package_buffer_len (get_or h.address 0 0) c.0 c.1 c.2 in
            (n, some (record h { package_buffer = some buf' }))
      ]
]

-- `panasonnic_recv_package_handle(arg)`: no byte of the reply is read.
pub panasonnic_recv_package_handle : Option MstpPort → ℤ
panasonnic_recv_package_handle none = neg_one
panasonnic_recv_package_handle (some h) = pos 0
