-- ===== src/Device/Daikin.antt =====
-- The Daikin HA adapter, app/rs485d/src/device/airCondition/daikin/DTA116A621.c: one Modbus slave, with
-- three holding registers for each of 64 air conditioners, of which the driver keeps a copy.
mod Masks
pub mod Words
mod Tests
use rs.Prelude.{
  ℕ, zero, suc, ◌+◌, ◌*◌, ◌/◌, ◌%◌, ◌^◌, ◌≡◌, Bool, true, false, ◌&&◌, ◌||◌, Option, none, some,
  List, [], ◌∷◌, ◌++◌, ℤ, pos, neg_one, bit_and, bit_or, u16, get_or, set, replicate, ltb, leb,
  ◌==◌, if◌then◌else◌,
}
use rs.Device.Hitachi.{
  FunctionCode, write_signle_register, read_input_register, read_multiple_registers, do_nothing,
}

-- DAIKIN_HA_ADAPTER_STATUS_ENUM
pub data AdapterStatus : Type 0 where
  wait_init wait_connect normal error : AdapterStatus

-- `glb_daikin_hold_register_value`, by its columns: switch, swing and fan; mode; temperature.
pub record HoldRegisters : Type 0 where
  pub on_off_swing_fan : List ℕ
  pub mode : List ℕ
  pub temperature : List ℕ

-- The initializer has 63 rows, and the last row is 0.
pub glb_daikin_hold_register_value : HoldRegisters
glb_daikin_hold_register_value = record {
  on_off_swing_fan = replicate 63 0x3761 ++ 0 ∷ [];
  mode = replicate 63 0x0103 ++ 0 ∷ [];
  temperature = replicate 63 250 ++ 0 ∷ [];
}

-- The three offsets.
pub data Offset : Type 0 where
  on_off_swing_fan_offset mode_offset temperature_offset : Offset

abbrev pub offset_number : Offset → ℕ
offset_number on_off_swing_fan_offset = 0
offset_number mode_offset = 1
offset_number temperature_offset = 2

-- A read and a write of a word of the copy.
abbrev pub load : HoldRegisters → ℕ → Offset → ℕ
load t addr on_off_swing_fan_offset = get_or t.on_off_swing_fan addr 0
load t addr mode_offset = get_or t.mode addr 0
load t addr temperature_offset = get_or t.temperature addr 0

abbrev pub save : HoldRegisters → ℕ → Offset → ℕ → HoldRegisters
save t addr on_off_swing_fan_offset v = record t {
  on_off_swing_fan = set t.on_off_swing_fan addr v;
}
save t addr mode_offset v = record t { mode = set t.mode addr v }
save t addr temperature_offset v = record t { temperature = set t.temperature addr v }

-- A case of the switch: the value times ten, or the bits that are put over a mask of an old word.
pub data Action : Type 0 where
  ten_times unknown : Action
  masked : Offset → ℕ → ℕ → Action

pub action : ℕ → Action
action method =
    if method == 10 || leb 18 method && leb method 30
    then ten_times
    else if method == 41
    then masked on_off_swing_fan_offset 0xf0ff 0x0200
    else if method == 42
    then masked on_off_swing_fan_offset 0xf0ff 0x0400
    else if method == 43
    then masked on_off_swing_fan_offset 0xf0ff 0x0000
    else if method == 44
    then masked on_off_swing_fan_offset 0xf0ff 0x0700
    else if method == 51
    then masked on_off_swing_fan_offset 0x0fff 0x3000
    else if method == 52
    then masked on_off_swing_fan_offset 0x0fff 0x5000
    else if method == 53
    then masked on_off_swing_fan_offset 0x0fff 0x3000
    else if method == 54
    then masked on_off_swing_fan_offset 0x0fff 0x1000
    else if method == 61
    then masked mode_offset 0xfff0 0x0000
    else if method == 62
    then masked mode_offset 0xfff0 0x0001
    else if method == 63
    then masked mode_offset 0xfff0 0x0002
    else if method == 64
    then masked mode_offset 0xfff0 0x0007
    else if method == 65
    then masked mode_offset 0xfff0 0x0103
    else if method == 71
    then masked on_off_swing_fan_offset 0xfff0 0x0000
    else if method == 72
    then masked on_off_swing_fan_offset 0xfff0 0x0001
    else unknown

-- A case's new word, in the copy too; -1 as 16 bits for the default.
pub act : HoldRegisters → ℕ → ℕ → Action → ℕ × HoldRegisters
act t value addr ten_times = let new = u16 (value * 10) in (new, save t addr temperature_offset new)
act t value addr (masked o mask bits) =
    let new = bit_or bits (bit_and (load t addr o) mask) in (new, save t addr o new)
act t value addr unknown = (0xffff, t)

-- `get_daikin_hold_register_value(method, value, device_addr)`, for a value that is not negative.
pub get_daikin_hold_register_value : HoldRegisters → ℕ → ℕ → ℕ → ℕ × HoldRegisters
get_daikin_hold_register_value t method value addr = act t value addr (action method)

-- `get_daikin_write_register_addr(device_addr)`
pub get_daikin_write_register_addr : ℕ → ℕ
get_daikin_write_register_addr device_addr = u16 (device_addr * 3 + 2000)

-- The fields of `modbus_port_handle_t` that the driver uses.
pub record DaikinPort : Type 0 where
  pub code : FunctionCode
  pub device_addr : ℕ
  pub register_addr : ℕ
  pub buffer : List ℕ
  pub method : ℕ
  pub value : ℕ

abbrev pub adapter_address : ℕ
adapter_address = 0x02

-- `glb_ha_status == false`, which is the status 0.
abbrev pub is_waiting : AdapterStatus → Bool
is_waiting wait_init = true
is_waiting wait_connect = false
is_waiting normal = false
is_waiting error = false

-- The stores of a write into the handle; the test of the word for a negative value is never true.
pub fill : DaikinPort → Offset → ℕ → DaikinPort
fill h o word = record h {
  code = write_signle_register;
  register_addr = u16 (get_daikin_write_register_addr h.device_addr + offset_number o);
  buffer = set (set h.buffer 0 (word / 2 ^ 8)) 1 (word % 2 ^ 8);
  device_addr = adapter_address;
}

-- The result, the handle and the copy.
abbrev pub Sent : Type 0
Sent = ℤ × Option DaikinPort × HoldRegisters

-- The body that the five handlers share, for the offset of each.
pub daikin_set : Offset → AdapterStatus → HoldRegisters → Option DaikinPort → Sent
daikin_set o status t none = (neg_one, none, t)
daikin_set o status t (some h) =
    let (word, t') = get_daikin_hold_register_value t h.method h.value h.device_addr in
    if is_waiting status
    then (pos 0, some (record h { code = do_nothing }), t)
    else if ltb 63 h.device_addr
    then (neg_one, some (record h { code = write_signle_register }), t)
    else (pos 1, some (fill h o word), t')

pub daikin_dta116a621_set_temperature : AdapterStatus → HoldRegisters → Option DaikinPort → Sent
daikin_dta116a621_set_temperature = daikin_set temperature_offset

-- The test of the method is for the fan's automatic speed, and stands before the test of the address.
pub daikin_dta116a621_set_mode : AdapterStatus → HoldRegisters → Option DaikinPort → Sent
daikin_dta116a621_set_mode status t none = (neg_one, none, t)
daikin_dta116a621_set_mode status t (some h) =
    let rest = daikin_set mode_offset status t (some h) in
    if h.method == 51 then (pos 0, some (record h { code = do_nothing }), t) else rest

pub daikin_dta116a621_set_swing : AdapterStatus → HoldRegisters → Option DaikinPort → Sent
daikin_dta116a621_set_swing = daikin_set on_off_swing_fan_offset

pub daikin_dta116a621_set_fan : AdapterStatus → HoldRegisters → Option DaikinPort → Sent
daikin_dta116a621_set_fan = daikin_set on_off_swing_fan_offset

pub daikin_dta116a621_set_switch : AdapterStatus → HoldRegisters → Option DaikinPort → Sent
daikin_dta116a621_set_switch = daikin_set on_off_swing_fan_offset

-- The query of a status: the code, the register and the length, if it asks.
pub query : DaikinPort → AdapterStatus → ℤ × DaikinPort
query h wait_init = (pos 1, record h { code = read_input_register; register_addr = 0 })
query h wait_connect = (pos 4, record h { code = read_multiple_registers; register_addr = 1 })
query h normal = (pos 0, record h { code = do_nothing })
query h error = (pos 0, record h { code = do_nothing })

-- `daikin_dta116a621_get_device_info_send(arg)`
pub daikin_dta116a621_get_device_info_send :
    AdapterStatus → Option DaikinPort → ℤ × Option DaikinPort
daikin_dta116a621_get_device_info_send status none = (neg_one, none)
daikin_dta116a621_get_device_info_send status (some h) =
    let (n, h') = query h status in (n, some (record h' { device_addr = adapter_address }))

-- `set_indoor_machine_connect_status(machine, status)`; its test is never true.
abbrev pub set_indoor_machine_connect_status : List Bool → ℕ → Bool → List Bool
set_indoor_machine_connect_status machines machine status = set machines machine status

-- The inner loop, from `j` on, and the outer one, over the words that were read. A word's status is
-- `(word >> j) && 0x01`, and is stored at the number `i * j`.
pub connect_bits : List Bool → ℕ → ℕ → ℕ → ℕ → List Bool
connect_bits machines i word j zero = machines
connect_bits machines i word j (suc left) =
    let status = if word / 2 ^ j == 0 then false else true in
    connect_bits (set_indoor_machine_connect_status machines (i * j) status) i word (suc j) left

pub connect_words : List Bool → List ℕ → ℕ → ℕ → List Bool
connect_words machines value i zero = machines
connect_words machines value i (suc left) =
    connect_words (connect_bits machines i (get_or value i 0) 0 8) value (suc i) left

-- `daikin_dta116a621_get_device_info_handle(arg)` on the 16-bit words of a buffer: the status and the
-- connected machines after it; it returns 0.
pub daikin_dta116a621_get_device_info_handle :
    AdapterStatus → List Bool → List ℕ → AdapterStatus × List Bool
daikin_dta116a621_get_device_info_handle wait_init machines value =
    (if get_or value 0 0 == 1 then wait_connect else wait_init, machines)
daikin_dta116a621_get_device_info_handle wait_connect machines value =
    (normal, connect_words machines value 0 4)
daikin_dta116a621_get_device_info_handle normal machines value = (normal, machines)
daikin_dta116a621_get_device_info_handle error machines value = (error, machines)
