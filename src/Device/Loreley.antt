-- ===== src/Device/Loreley.antt =====
-- The Loreley fresh air, app/rs485d/src/device/freshAir/loreley/loreley.c: the frame
-- start, address, command, return code, length, data, sum check, end.
pub mod Sum
pub mod Frame
pub mod Reply
mod Tests
use rs.Prelude.{
  ℕ, zero, suc, ◌+◌, ◌-◌, ◌*◌, ◌%◌, ◌^◌, ◌≡◌, Bool, true, false, ◌&&◌, ◌||◌, not, Option, none,
  some, List, [], ◌∷◌, ◌++◌, ℤ, pos, neg_one, neg_eperm, neg_eio, neg_einval, u8, length, get_or,
  take, drop, ltb, ◌==◌, if◌then◌else◌,
}
use rs.Device.Port.{
  MstpPort, FreshAirInfo, memcpy, fresh_air_auto_on, fresh_air_auto_off, fresh_air_get_device_info,
}

-- SOI_SEND, SOI_RECEIVE, RTN_SEND and EOI
abbrev pub soi_send : ℕ
soi_send = 0xaa

abbrev pub soi_receive : ℕ
soi_receive = 0x55

abbrev pub rtn_send : ℕ
rtn_send = 0x60

abbrev pub eoi : ℕ
eoi = 0x0d

-- RS485_NEW_TREND_SET_ADDR_CID and its kin
abbrev pub set_addr_cid : ℕ
set_addr_cid = 0x20

abbrev pub get_addr_cid : ℕ
get_addr_cid = 0x21

abbrev pub get_info_cid : ℕ
get_info_cid = 0x22

abbrev pub set_arg_cid : ℕ
set_arg_cid = 0x23

abbrev pub restart_cid : ℕ
restart_cid = 0x24

-- `rs485_set_new_trend_table`
abbrev pub table_on : List ℕ
table_on = 0x01 ∷ 0x01 ∷ 0x00 ∷ 0x00 ∷ 0x00 ∷ []

abbrev pub table_off : List ℕ
table_off = 0x01 ∷ 0x00 ∷ 0x00 ∷ 0x00 ∷ 0x00 ∷ []

-- `result += *(value++)`, `length` times, in an `unsigned char`.
unfoldable pub sum_loop : ℕ → List ℕ → ℕ → ℕ
sum_loop result value zero = result
sum_loop result [] (suc n) = result
sum_loop result (b ∷ value) (suc n) = sum_loop (u8 (result + b)) value n

-- `calculate_sum_check(value, length)`; `~x + 1` in an `unsigned char` is 256 - x. A NULL `value`
-- of length 0 gives 0, as the empty list does, and so does a negative length, here 0.
pub calculate_sum_check : List ℕ → ℕ → ℕ
unfolding sum_loop
calculate_sum_check value length = u8 (255 - sum_loop 0 value length % 256 + 1)

-- The first `n` bytes, their sum check from the byte 1 on, and the end.
pub with_sum : List ℕ → ℕ → List ℕ
with_sum send_buf n = send_buf ++ (calculate_sum_check (drop 1 send_buf) n ∷ eoi ∷ [])

-- The switch of `loreley_send_package`: the `package_len` bytes, or `none` for the default.
pub build : ℕ → ℕ → List ℕ → Option (List ℕ)
build addr cid bytes =
    if (cid == get_addr_cid || cid == get_info_cid) || cid == restart_cid
    then some (with_sum (soi_send ∷ addr ∷ cid ∷ rtn_send ∷ 0 ∷ []) 4)
    else if cid == set_addr_cid
    then some (with_sum (soi_send ∷ addr ∷ cid ∷ rtn_send ∷ 1 ∷ get_or bytes 0 0 ∷ []) 5)
    else if cid == set_arg_cid
    then some (
        with_sum
          (soi_send
            ∷ addr
            ∷ cid
            ∷ rtn_send
            ∷ 5
            ∷ get_or bytes 0 0
            ∷ get_or bytes 1 0
            ∷ get_or bytes 2 0
            ∷ get_or bytes 3 0
            ∷ get_or bytes 4 0
            ∷ [])
          9)
    else none

-- `loreley_send_package(send_buffer, send_buffer_len, addr, msg_cid, bytes)`; no data is `[]`.
pub loreley_send_package : List ℕ → ℕ → ℕ → ℕ → List ℕ → ℤ × List ℕ
loreley_send_package send_buffer len addr cid bytes = elim (build addr cid bytes) [
  | none ↦ (neg_one, send_buffer)
  | some frame ↦
      if ltb len (length frame)
      then (neg_one, send_buffer)
      else (pos (length frame), memcpy send_buffer frame)
]

-- The command and the data of the switch of `loreley_send_package_handle`.
pub command_of : ℕ → Option (ℕ × List ℕ)
command_of method =
    if method == fresh_air_auto_on
    then some (set_arg_cid, table_on)
    else if method == fresh_air_auto_off
    then some (set_arg_cid, table_off)
    else if method == fresh_air_get_device_info
    then some (get_info_cid, [])
    else none

-- `loreley_send_package_handle(arg)`; `none` is a NULL handle.
pub loreley_send_package_handle : Option MstpPort → ℤ × Option MstpPort
loreley_send_package_handle none = (neg_one, none)
loreley_send_package_handle (some h) = elim h.package_buffer [
  | none ↦ (neg_one, some h)
  | some buf ↦ if not (h.address_len == 1) then (neg_one, some h) else elim (command_of h.method) [
    | none ↦ (neg_one, some h)
    | some c ↦
        let (n, buf') =
          loreley_send_package buf h.package_buffer_len (get_or h.address 0 0) c.0 c.1 in
        (n, some (record h { package_buffer = some buf' }))
  ]
]

-- What `loreley_recv_package_handle` hands to `set_read_device_information`.
pub info_of : List ℕ → FreshAirInfo
info_of buf = record {
  error = not (get_or buf 14 0 == 0);
  runing = not (get_or buf 15 0 == 0);
  room_temperature = get_or buf 7 0;
  room_humidity = get_or buf 9 0;
  pm2_5 = get_or buf 11 0;
  fresh_level = 1;
}

-- The switch on the method, once the frame has passed the checks.
pub accept : ℕ → ℕ → List ℕ → ℤ × Option FreshAirInfo
accept method len buf =
    if method == fresh_air_auto_off || method == fresh_air_auto_on
    then (pos 0, none)
    else if method == fresh_air_get_device_info
    then if not (len == 18) then (neg_eio, none) else (pos 0, some (info_of buf))
    else (neg_eperm, none)

-- `loreley_recv_package_handle(arg)`. A reply of no byte makes the source index before the buffer;
-- see `Reply`.
pub loreley_recv_package_handle : Option MstpPort → ℤ × Option FreshAirInfo
loreley_recv_package_handle none = (neg_einval, none)
loreley_recv_package_handle (some h) = elim h.package_buffer [
  | none ↦ (neg_einval, none)
  | some buf ↦
      if not (get_or buf 0 0 == soi_receive) || not (get_or buf (h.package_buffer_len - 1) 0 == eoi)
      then (neg_eio, none)
      else if not (
          get_or buf (h.package_buffer_len - 2) 0
          == calculate_sum_check (drop 1 buf) (h.package_buffer_len - 3))
      then (neg_eio, none)
      else accept h.method h.package_buffer_len buf
]
