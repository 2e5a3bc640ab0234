-- ===== src/Device/York/Tests.antt =====
-- The York driver at concrete methods.
use rs.Prelude.{◌≤◌, ◌≡◌, ℕ, refl, none, some, [], ◌∷◌, pos}
use rs.Device.York.{
  WriteArgs, BacnetPort, other_bacnet_code, york_kelong_set_fan, get_air_york_instance,
}
use rs.Device.York.Objects.{fan, mode, meaning, Prepares, writer-Prepares}
use rs.Device.York.Units.{get_air_york_instance_bounds}

abbrev empty_write : WriteArgs
empty_write = record {
  device_id = 0;
  object_type = 0;
  object_instance = 0;
  object_property = 0;
  object_property_priority = 0;
  object_property_index = 0;
  object_property_value_type = 0;
  object_property_value = [];
}

-- The fan to middle, in the air conditioner at 0x13.
abbrev breeze : BacnetPort
breeze = record {
  code = other_bacnet_code 4;
  mac = 0x13 ∷ [];
  method = 53;
  write_arg = empty_write;
  read_arg = record {
    reader_id = 0;
    object_numbers = 0;
    object_types = [];
    object_instances = [];
    object_properties = [];
  };
}

meaning_breeze : meaning 53 ≡ some (fan, 3)
unfolding meaning
meaning_breeze = refl

meaning_cooling : meaning 63 ≡ some (mode, 0)
unfolding meaning
meaning_cooling = refl

writer-Prepares_example : Prepares breeze 10003 fan 3 (york_kelong_set_fan (some breeze))
writer-Prepares_example = writer-Prepares breeze fan 3 meaning_breeze

meaning_restart : meaning 73 ≡ none
unfolding meaning
meaning_restart = refl

-- A restart, which no row of the table stands for.
abbrev restart : BacnetPort
restart = record breeze { method = 73 }

instance_13 : get_air_york_instance 0x13 ≡ pos 10003
unfolding get_air_york_instance
instance_13 = refl

abbrev mac_13 : ℕ
mac_13 = 0x13

get_air_york_instance_bounds_example :
    (0x11 ≤ 0x13) × (0x13 ≤ 0x1f) × (10001 ≤ 10003) × (10003 ≤ 10015) × (mac_13 ≡ mac_13)
get_air_york_instance_bounds_example =
    get_air_york_instance_bounds 0x13 0x13 10003 instance_13 instance_13
