-- ===== src/Modbus/Service.antt =====
-- The start and the end of the Modbus service, with the calls of libmodbus as parameters.
use rs.Prelude.{ℕ, Bool, Option, none, some, ℤ, pos, is_neg, neg_eperm, neg_eio, if◌then◌else◌}

-- The parities of `object->port.parity`, and all other numbers.
pub data Parity : Type 0 where
  port_type_none port_type_even port_type_odd : Parity
  port_type_other : ℕ → Parity

-- The character of a parity: 'N', 'E', 'O', and 'E' for the others.
pub letter_of : Parity → ℕ
letter_of port_type_none = 78
letter_of port_type_even = 69
letter_of port_type_odd = 79
letter_of (port_type_other n) = 69

-- `object_management_t`: the parity of its port, and the descriptor; `none` is NULL.
pub record Object (F : Type 0) : Type 0 where
  pub parity : Parity
  pub object_private : Option F

module _ {F : Type 0} (modbus_new_rtu : ℕ → Option F) (modbus_connect : F → ℤ) where
  pub connected : Object F → Option F → ℤ × Object F
  connected object none = (neg_eio, record object { object_private = none })
  connected object (some fd) = (
    if is_neg (modbus_connect fd) then neg_eperm else pos 0,
    record object { object_private = some fd },
  )

  -- `modbus_service_init(object)`; `johnson` says whether the build is the gateway of Johnson
  -- Controls, which has no parity. The timeout and the debug flag are libmodbus's.
  pub modbus_service_init : Bool → Option (Object F) → ℤ × Option (Object F)
  modbus_service_init johnson none = (neg_eperm, none)
  modbus_service_init johnson (some object) =
      let parity = if johnson then 78 else letter_of object.parity in
      let (error, object') = connected object (modbus_new_rtu parity) in (error, some object')

-- `modbus_service_deinit(object)`: the descriptor that is closed and freed, if any.
pub modbus_service_deinit : {F : Type 0} → Option (Object F) → Option F
modbus_service_deinit none = none
modbus_service_deinit (some object) = object.object_private
