-- ===== src/Table/Devices.antt =====
-- app/rs485d/src/core/mdev.c: the table that numbers the devices. A device is the number of its
-- object. Ids are `int`: `before k` is the word that lies k + 1 words before the table.
pub mod Laws
mod Tests
use rs.Prelude.{
  ℕ, zero, suc, ◌-◌, ◌≡◌, Bool, true, false, Option, none, some, List, ℤ, pos, negsuc, neg_eperm,
  get_or, set, ltb, leb, first_from, ◌==◌, if◌then◌else◌,
}

-- RS485_DEVICE_MAX_NUMBERS
abbrev pub device_max_numbers : ℕ
device_max_numbers = 1024

-- `rs485_device_table` and the memory before it.
pub record Devices : Type 0 where
  pub table : List (Option ℕ)
  pub before : ℕ → Option ℕ

pub check_id : ℤ → Bool
check_id (pos id) = if leb device_max_numbers id then false else true
check_id (negsuc k) = true

-- `rs485_device_table[id]`, read and written.
pub read_slot : Devices → ℤ → Option ℕ
read_slot t (pos id) = get_or t.table id none
read_slot t (negsuc k) = t.before k

pub write_slot : Devices → ℤ → Option ℕ → Devices
write_slot t (pos id) d = record t { table = set t.table id d }
write_slot t (negsuc k) d = record t { before = λ j. if j == k then d else t.before j }

unfoldable pub is_free : Devices → ℕ → Bool
is_free t i = elim (get_or t.table i none) [ none ↦ true | some d ↦ false ]

unfoldable pub find_next_device_id : Devices → ℤ
find_next_device_id t =
    let i = first_from (is_free t) 1 (device_max_numbers - 1) in
    if leb device_max_numbers i then neg_eperm else pos i

-- `get_device_id(device)`; `none` is a NULL device.
unfoldable pub get_device_id : Devices → Option ℕ → ℤ × Devices
get_device_id t none = (neg_eperm, t)
get_device_id t (some d) = let id = find_next_device_id t in (id, write_slot t id (some d))

pub free_device_id : Devices → ℤ → Devices
free_device_id t id = if check_id id then write_slot t id none else t

pub get_device_by_id : Devices → ℤ → Option ℕ
get_device_by_id t id = if check_id id then read_slot t id else none
