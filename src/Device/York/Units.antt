-- ===== src/Device/York/Units.antt =====
-- The device that an address names, and the query.
use rs.Prelude.{
  ℕ, ◌+◌, ◌-◌, ◌≤◌, ◌≡◌, refl, some, List, [], ◌∷◌, ◌&&◌, pos, get_or, arith, leb, length, take,
  set, if◌then◌else◌,
}
use rs.Device.York.{
  ReadArgs, read_property, BacnetPort, get_air_york_instance, unsigned_of,
  york_kelong_get_device_info_send, read_loop, get_air_york_read_args,
}

-- The device of an address from 0x11 to 0x1f; for the others -EPERM is read as a number.
abbrev pub device_named : ℕ → ℕ
device_named mac = if leb 0x11 mac && leb mac 0x1f then 10001 + (mac - 0x11) else 0xFFFFFFFF

pub get_air_york_instance-named :
    (mac : ℕ) → unsigned_of (get_air_york_instance mac) ≡ device_named mac
unfolding get_air_york_instance
get_air_york_instance-named mac = ground arith

-- An address that names a device lies from 0x11 to 0x1f, and the device from 10001 to 10015; two
-- addresses that name the same device are equal.
pub get_air_york_instance_bounds :
    (mac other id : ℕ)
    → get_air_york_instance mac ≡ pos id
    → get_air_york_instance other ≡ pos id
    → (0x11 ≤ mac) × (mac ≤ 0x1f) × (10001 ≤ id) × (id ≤ 10015) × (other ≡ mac)
unfolding get_air_york_instance
get_air_york_instance_bounds mac other id e e' =
    (ground arith, ground arith, ground arith, ground arith, ground arith)

set_seven :
    (xs : List ℕ) (a b c d e f g : ℕ)
    → 7 ≤ length xs
    → take 7 (set (set (set (set (set (set (set xs 0 a) 1 b) 2 c) 3 d) 4 e) 5 f) 6 g)
      ≡ a ∷ b ∷ c ∷ d ∷ e ∷ f ∷ g ∷ []
set_seven (_ ∷ _ ∷ _ ∷ _ ∷ _ ∷ _ ∷ _ ∷ xs) a b c d e f g room = refl
set_seven [] a b c d e f g room = absurd (omega arith)
set_seven (_ ∷ []) a b c d e f g room = absurd (omega arith)
set_seven (_ ∷ _ ∷ []) a b c d e f g room = absurd (omega arith)
set_seven (_ ∷ _ ∷ _ ∷ []) a b c d e f g room = absurd (omega arith)
set_seven (_ ∷ _ ∷ _ ∷ _ ∷ []) a b c d e f g room = absurd (omega arith)
set_seven (_ ∷ _ ∷ _ ∷ _ ∷ _ ∷ []) a b c d e f g room = absurd (omega arith)
set_seven (_ ∷ _ ∷ _ ∷ _ ∷ _ ∷ _ ∷ []) a b c d e f g room = absurd (omega arith)

-- The arguments read the present value of the analog inputs 0 to 5 and the binary input 1 of the
-- device `id`.
pub record Reads (args : ReadArgs) (id : ℕ) : Type 0 where
  pub device : args.reader_id ≡ id
  pub numbers : args.object_numbers ≡ 7
  pub kinds : take 7 args.object_types ≡ 0 ∷ 0 ∷ 0 ∷ 0 ∷ 0 ∷ 0 ∷ 3 ∷ []
  pub instances : take 7 args.object_instances ≡ 0 ∷ 1 ∷ 2 ∷ 3 ∷ 4 ∷ 5 ∷ 1 ∷ []
  pub properties : take 7 args.object_properties ≡ 85 ∷ 85 ∷ 85 ∷ 85 ∷ 85 ∷ 85 ∷ 85 ∷ []

-- The query returns 0 and leaves in the handle a read of seven properties.
pub york_kelong_get_device_info_send-Reads :
    (h : BacnetPort)
    → 7 ≤ length h.read_arg.object_types
    → 7 ≤ length h.read_arg.object_instances
    → 7 ≤ length h.read_arg.object_properties
    → (h' : BacnetPort) × (york_kelong_get_device_info_send (some h) ≡ (pos 0, some h'))
      × (h'.code ≡ read_property)
      × Reads h'.read_arg (device_named (get_or h.mac 0 0))
unfolding york_kelong_get_device_info_send get_air_york_read_args read_loop
york_kelong_get_device_info_send-Reads h a b c = (
  _,
  refl,
  refl,
  record {
    device = get_air_york_instance-named (get_or h.mac 0 0);
    numbers = refl;
    kinds = set_seven h.read_arg.object_types 0 0 0 0 0 0 3 a;
    instances = set_seven h.read_arg.object_instances 0 1 2 3 4 5 1 b;
    properties = set_seven h.read_arg.object_properties 85 85 85 85 85 85 85 c;
  },
)
