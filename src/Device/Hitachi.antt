-- ===== src/Device/Hitachi.antt =====
-- The Hitachi VRV box, app/rs485d/src/device/airCondition/hitachi/vrv_manager.c: one Modbus slave, with
-- four holding registers for each air conditioner behind it.
pub mod Registers
mod Tests
use rs.Prelude.{
  ℕ, ◌+◌, ◌*◌, ◌/◌, ◌%◌, ◌^◌, ◌≤◌, ◌≡◌, Bool, true, false, ◌&&◌, ◌||◌, Option, none, some, List, ℤ,
  pos, neg_one, neg_einval, u8, u16, set, ltb, leb, ◌==◌, if◌then◌else◌,
}

-- The `modbus_function_code_enum` codes, and all other numbers.
pub data FunctionCode : Type 0 where
  write_signle_coil read_signle_coil write_multiple_coils read_multiple_coils : FunctionCode
  read_input_bit read_input_multiple_bits : FunctionCode
  write_signle_register read_signle_register : FunctionCode
  write_multiple_registers read_multiple_registers : FunctionCode
  read_input_register read_input_multiple_registers do_nothing : FunctionCode
  other_code : ℕ → FunctionCode

-- The fields of `modbus_port_handle_t` that the driver uses.
pub record ModbusPort : Type 0 where
  pub code : FunctionCode
  pub device_addr : ℕ
  pub register_addr : ℕ
  pub buffer : List ℕ
  pub method : ℕ

-- HITACHI_VRV_MANAGER_DEFAULT_ADDRESS, HOLD_REGISTER_START, AIR_CONDITION_INFO_REGISTER_LENGTH
abbrev pub default_address : ℕ
default_address = 0x02

abbrev pub hold_register_start : ℕ
hold_register_start = 4000

abbrev pub info_register_length : ℕ
info_register_length = 6

-- SET_POWER_OFFSET and its kin
abbrev pub power_offset : ℕ
power_offset = 0

abbrev pub temperature_offset : ℕ
temperature_offset = 1

abbrev pub mode_offset : ℕ
mode_offset = 2

abbrev pub fang_offset : ℕ
fang_offset = 3

-- A case of the switch: an offset and a value, the code DO_NOTHING, or the default.
pub data Setting : Type 0 where
  write : ℕ → ℕ → Setting
  nothing unknown : Setting

-- The switch on the method.
pub setting : ℕ → Setting
setting method =
    if method == 18
    then write temperature_offset 19
    else if leb 19 method && leb method 30
    then write temperature_offset method
    else if leb 41 method && leb method 43
    then nothing
    else if method == 51
    then write fang_offset 0x02
    else if method == 52
    then write fang_offset 0x01
    else if method == 53
    then write fang_offset 0x02
    else if method == 54
    then write fang_offset 0x04
    else if method == 61
    then write mode_offset 0x04
    else if method == 62
    then write mode_offset 0x08
    else if method == 63
    then write mode_offset 0x01
    else if method == 64
    then write mode_offset 0x02
    else if method == 65
    then write mode_offset 0x02
    else if method == 71
    then write power_offset 0x00
    else if method == 72
    then write power_offset 0x01
    else unknown

-- The stores of a case into the handle, and the return value.
pub apply : ModbusPort → Setting → ℤ × ModbusPort
apply h (write offset value) = (
  pos 1,
  record h {
    register_addr = u16 (u16 (hold_register_start + h.device_addr * 4) + offset);
    buffer = set (set h.buffer 0 (value / 2 ^ 8)) 1 (value % 2 ^ 8);
    device_addr = default_address;
  },
)
apply h nothing = (pos 1, record h { code = do_nothing; device_addr = default_address })
apply h unknown = (pos 0, record h { code = do_nothing })

-- `hitachi_vrv_manager_send_package_handle(arg)`; `none` is a NULL handle.
pub hitachi_vrv_manager_send_package_handle : Option ModbusPort → ℤ × Option ModbusPort
hitachi_vrv_manager_send_package_handle none = (neg_einval, none)
hitachi_vrv_manager_send_package_handle (some h) =
    let h' : ModbusPort = record h { code = write_signle_register } in
    if ltb 127 h.device_addr
    then (neg_einval, some h')
    else let (n, h'') = apply h' (setting h.method) in (n, some h'')

-- `hitachi_vrv_manager_get_device_info_send(arg)`
pub hitachi_vrv_manager_get_device_info_send : Option ModbusPort → ℤ × Option ModbusPort
hitachi_vrv_manager_get_device_info_send none = (neg_one, none)
hitachi_vrv_manager_get_device_info_send (some h) = (
  pos info_register_length,
  some (record h {
    register_addr = u16 (h.device_addr * info_register_length);
    code = read_multiple_registers;
    device_addr = default_address;
  }),
)
