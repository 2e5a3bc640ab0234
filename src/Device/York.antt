-- ===== src/Device/York.antt =====
-- The York air conditioner, app/rs485d/src/device/airCondition/york/york.c: the table of the BACnet
-- objects, and the handlers that turn a method into the arguments of a property's write or read.
pub mod Table
pub mod Decimal
pub mod Objects
pub mod Units
mod Tests
use rs.Device.York.Table.{Object, object_at, york_air_condition_object, decimal, digits_of}
use rs.Prelude.{
  ℕ, zero, suc, ◌+◌, ◌-◌, ◌*◌, ◌/◌, ◌%◌, ◌≡◌, Bool, true, false, ◌&&◌, Option, none, some, List, [],
  ◌∷◌, ◌++◌, ℤ, pos, negsuc, neg_one, neg_eperm, get_or, set, ltb, leb, ◌==◌, if◌then◌else◌,
}

-- The fields of `bacnet_write_args_t`; the value is the characters before the final NUL.
pub record WriteArgs : Type 0 where
  pub device_id : ℕ
  pub object_type : ℕ
  pub object_instance : ℕ
  pub object_property : ℕ
  pub object_property_priority : ℕ
  pub object_property_index : ℕ
  pub object_property_value_type : ℕ
  pub object_property_value : List ℕ

-- The fields of `bacnet_read_args_t`.
pub record ReadArgs : Type 0 where
  pub reader_id : ℕ
  pub object_numbers : ℕ
  pub object_types : List ℕ
  pub object_instances : List ℕ
  pub object_properties : List ℕ

-- The index that a row asks for: all of the property for -1, and the old one otherwise.
abbrev pub index_of : ℤ → ℕ → ℕ
index_of (negsuc zero) old = 0xFFFFFFFF
index_of x old = old

-- The stores of a case of the switch: the object of the row `r`, the index and value of the row `s`.
pub store_row : WriteArgs → ℕ → ℕ → ℕ → WriteArgs
store_row args id r s = record {
  device_id = id;
  object_type = (object_at r).kind;
  object_instance = (object_at r).instance;
  object_property = (object_at r).property;
  object_property_priority = (object_at r).priority;
  object_property_value_type = (object_at r).value_type;
  object_property_index = index_of (object_at s).index args.object_property_index;
  object_property_value = decimal (object_at s).value;
}

-- The rows that the switch on the command reads, of the object and of the value; `none` is the
-- default. The modes read two different ones.
pub rows_of : ℕ → Option (ℕ × ℕ)
rows_of command =
    if leb 18 command && leb command 30
    then some (command - 18, command - 18)
    else if leb 41 command && leb command 44
    then some (command - 41 + 16, command - 41 + 16)
    else if leb 51 command && leb command 54
    then some (command - 51 + 20, command - 51 + 20)
    else if leb 61 command && leb command 65
    then some (command - 61 + 24, command - 51 + 24)
    else if leb 71 command && leb command 72
    then some (command - 71 + 29, command - 71 + 29)
    else none

-- A case of the switch.
abbrev pub store_rows : WriteArgs → ℕ → Option (ℕ × ℕ) → ℤ × Option WriteArgs
store_rows args id none = (neg_eperm, some args)
store_rows args id (some (r, s)) = (pos 0, some (store_row args id r s))

-- `get_air_york_write_args(args, device_id, command, value)`. The test before the switch, for a
-- command that is below 18 and above 81, is never true; the value is not used.
pub get_air_york_write_args : Option WriteArgs → ℕ → ℕ → ℤ × Option WriteArgs
get_air_york_write_args none id command = (neg_one, none)
get_air_york_write_args (some args) id command =
    if ltb command 18 && ltb 81 command
    then (neg_one, some args)
    else store_rows args id (rows_of command)

-- The kind, number and property of each object that is read.
abbrev pub york_air_condition_read_property : List (ℕ × ℕ × ℕ)
york_air_condition_read_property =
    (0, 0, 85) ∷ (0, 1, 85) ∷ (0, 2, 85) ∷ (0, 3, 85) ∷ (0, 4, 85) ∷ (0, 5, 85) ∷ (3, 1, 85) ∷ []

-- The body of the loop over the objects that are read.
abbrev pub store_read : ReadArgs → ℕ → ℕ × ℕ × ℕ → ReadArgs
store_read args i (k, n, p) = record args {
  object_types = set args.object_types i k;
  object_instances = set args.object_instances i n;
  object_properties = set args.object_properties i p;
}

-- The loop, from `i` on over the rows that are left.
pub read_loop : ReadArgs → ℕ → List (ℕ × ℕ × ℕ) → ReadArgs
read_loop args i [] = args
read_loop args i (r ∷ rs) = read_loop (store_read args i r) (i + 1) rs

-- `get_air_york_read_args(args, device_id)`
pub get_air_york_read_args : Option ReadArgs → ℕ → ℤ × Option ReadArgs
get_air_york_read_args none id = (neg_one, none)
get_air_york_read_args (some args) id = (
  pos 0,
  some (
      read_loop (record args { reader_id = id; object_numbers = 7 }) 0
        york_air_condition_read_property),
)

-- `get_air_york_instance(mac)`
pub get_air_york_instance : ℕ → ℤ
get_air_york_instance mac =
    if leb 127 mac
    then neg_eperm
    else if mac == 0x11
    then pos 10001
    else if mac == 0x12
    then pos 10002
    else if mac == 0x13
    then pos 10003
    else if mac == 0x14
    then pos 10004
    else if mac == 0x15
    then pos 10005
    else if mac == 0x16
    then pos 10006
    else if mac == 0x17
    then pos 10007
    else if mac == 0x18
    then pos 10008
    else if mac == 0x19
    then pos 10009
    else if mac == 0x1a
    then pos 10010
    else if mac == 0x1b
    then pos 10011
    else if mac == 0x1c
    then pos 10012
    else if mac == 0x1d
    then pos 10013
    else if mac == 0x1e
    then pos 10014
    else if mac == 0x1f
    then pos 10015
    else neg_eperm

-- The codes of `bacnet_function_code_enum` that the driver stores, and the others.
pub data BacnetCode : Type 0 where
  write_property read_property : BacnetCode
  other_bacnet_code : ℕ → BacnetCode

-- The fields of `bacnet_port_handle_t` that the driver uses.
pub record BacnetPort : Type 0 where
  pub code : BacnetCode
  pub mac : List ℕ
  pub method : ℕ
  pub write_arg : WriteArgs
  pub read_arg : ReadArgs

-- An `int` stored in an `unsigned int`.
abbrev pub unsigned_of : ℤ → ℕ
unsigned_of (pos n) = n
unsigned_of (negsuc n) = 0xFFFFFFFF - n

-- The device that the first byte of the address names.
abbrev pub device_of : BacnetPort → ℕ
device_of h = unsigned_of (get_air_york_instance (get_or h.mac 0 0))

-- The arguments back in the handle.
abbrev pub put_write_arg : BacnetPort → ℤ × Option WriteArgs → ℤ × Option BacnetPort
put_write_arg h (n, none) = (n, some h)
put_write_arg h (n, some args) = (n, some (record h { write_arg = args }))

-- `york_kelong_set_temperature(arg)`; `none` is a NULL handle.
pub york_kelong_set_temperature : Option BacnetPort → ℤ × Option BacnetPort
york_kelong_set_temperature none = (neg_one, none)
york_kelong_set_temperature (some h) =
    let id = device_of h in
    let args : WriteArgs = record h.write_arg { device_id = id } in
    let h' : BacnetPort = record h { code = write_property; write_arg = args } in
    put_write_arg h' (get_air_york_write_args (some args) id h.method)

-- `york_kelong_set_mode`, `york_kelong_set_swing`, `york_kelong_set_fan` and
-- `york_kelong_set_switch` have the same body.
pub york_kelong_set_mode : Option BacnetPort → ℤ × Option BacnetPort
york_kelong_set_mode = york_kelong_set_temperature

pub york_kelong_set_swing : Option BacnetPort → ℤ × Option BacnetPort
york_kelong_set_swing = york_kelong_set_temperature

pub york_kelong_set_fan : Option BacnetPort → ℤ × Option BacnetPort
york_kelong_set_fan = york_kelong_set_temperature

pub york_kelong_set_switch : Option BacnetPort → ℤ × Option BacnetPort
york_kelong_set_switch = york_kelong_set_temperature

-- The arguments of the read back in the handle.
abbrev pub put_read_arg : BacnetPort → ℤ × Option ReadArgs → ℤ × Option BacnetPort
put_read_arg h (n, none) = (n, some h)
put_read_arg h (n, some args) = (n, some (record h { read_arg = args }))

-- `york_kelong_get_device_info_send(arg)`; it stores the device in the arguments of the write too.
pub york_kelong_get_device_info_send : Option BacnetPort → ℤ × Option BacnetPort
york_kelong_get_device_info_send none = (neg_one, none)
york_kelong_get_device_info_send (some h) =
    let id = device_of h in
    let args : WriteArgs = record h.write_arg { device_id = id } in
    let h' : BacnetPort = record h { code = read_property; write_arg = args } in
    put_read_arg h' (get_air_york_read_args (some h.read_arg) id)

-- `york_kelong_get_device_info_handle(arg)` reads nothing.
pub york_kelong_get_device_info_handle : Option BacnetPort → ℤ
york_kelong_get_device_info_handle none = neg_one
york_kelong_get_device_info_handle (some h) = pos 0
