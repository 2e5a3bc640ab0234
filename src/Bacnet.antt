-- ===== src/Bacnet.antt =====
-- The worker of BACnet, bacnet_work_thread_function of app/rs485d/src/protocol/bacnet/bacnet.c, with
-- bacnet_write_property and bacnet_read_property of write_property.c and read_property.c beside it.
-- The BACnet stack is a parameter on a state of the world.
pub mod Write
pub mod Read
pub mod Work
pub mod Thread
pub mod York
mod Tests
use rs.Prelude.{
  ℕ, zero, suc, ◌+◌, ◌-◌, ◌≤◌, ◌≡◌, Bool, true, false, ◌&&◌, ◌||◌, not, Option, none, some, List,
  [], ◌∷◌, ℤ, pos, negsuc, neg_one, is_neg, get_or, take, ltb, leb, ◌==◌, if◌then◌else◌,
}
use rs.Device.York.{
  WriteArgs, ReadArgs, BacnetPort, BacnetCode, write_property, read_property, other_bacnet_code,
}

-- The tag of the value that is written: BACNET_APPLICATION_DATA_VALUE, of which nothing else is set.
pub record PropertyValue : Type 0 where
  pub context_tag : ℕ
  pub context_specific : Bool

-- An element of `read_access_data` with its property; `none` is the NULL of a row that is not filled.
pub record ReadAccess : Type 0 where
  pub object_type : ℕ
  pub object_instance : ℕ
  pub property : Option ℕ

-- The arguments of Send_Write_Property_Request.
pub record WriteRequest : Type 0 where
  pub device_id : ℕ
  pub object_type : ℕ
  pub object_instance : ℕ
  pub object_property : ℕ
  pub object_value : PropertyValue
  pub priority : ℕ
  pub array_index : ℕ

-- What a write asks for; the text of its value is not among it.
pub request_of : WriteArgs → PropertyValue → WriteRequest
request_of args v = record {
  device_id = args.device_id;
  object_type = args.object_type;
  object_instance = args.object_instance;
  object_property = args.object_property;
  object_value = v;
  priority = args.object_property_priority;
  array_index = args.object_property_index;
}

-- The calls of the BACnet stack: the address of a device, the requests, which return an invoke id,
-- the state of such an id, its release, a datagram, and its handling.
pub record BacnetStack (W : Type 0) : Type 0 where
  pub address_bind_request : ℕ → W → Bool × W
  pub send_write : WriteRequest → W → ℕ × W
  pub send_read_multiple : ℕ → List ReadAccess → W → ℕ × W
  pub tsm_invoke_id_free : ℕ → W → Bool
  pub tsm_invoke_id_failed : ℕ → W → Bool
  pub tsm_free_invoke_id : ℕ → W → W
  pub datalink_receive : W → ℕ × W
  pub npdu_handler : ℕ → W → W

-- The static variables of write_property.c and read_property.c, and the world.
pub record BacnetClient (W : Type 0) : Type 0 where
  pub request_invoke_id : ℕ
  pub target_value : PropertyValue
  pub error_detected : Bool
  pub read_access_data : List ReadAccess
  pub init : Bool
  pub world : W

-- The context of the value.
pub context_of : ℕ → PropertyValue → PropertyValue
context_of value_type v =
    if ltb 10 value_type
    then record v { context_tag = value_type; context_specific = true }
    else record v { context_specific = false }

-- The rows that `memcpy_read_args` fills, from the index `i` on.
pub access_rows : ReadArgs → ℕ → ℕ → List ReadAccess
access_rows args i zero = []
access_rows args i (suc n) =
    record {
      object_type = get_or args.object_types i 0;
      object_instance = get_or args.object_instances i 0;
      property = some (get_or args.object_properties i 0);
    }
    ∷ access_rows args (i + 1) n

-- The list that starts at the first row; without an object, that row is as it was, cleared. The rows
-- have room for BACNET_READ_ARGS_OBJECT_MAX objects, which a header outside the repository defines.
pub asked_rows : ReadArgs → List ReadAccess
asked_rows args = elim args.object_numbers [
  | zero ↦ record { object_type = 0; object_instance = 0; property = none } ∷ []
  | suc n ↦ access_rows args 0 (suc n)
]

module _ {W : Type 0} (lib : BacnetStack W) where
  -- `datalink_receive`, and `npdu_handler` of what is not empty.
  pub processed : ℕ × W → W
  processed (pdu_len, w) = if pdu_len == 0 then w else lib.npdu_handler pdu_len w

  pub receive_reply : BacnetClient W → BacnetClient W
  receive_reply s = record s { world = processed (lib.datalink_receive s.world) }

  -- The request of a turn without an id.
  pub send : WriteArgs → BacnetClient W → BacnetClient W
  send args s =
      let (id, w) = lib.send_write (request_of args s.target_value) s.world in
      record s { request_invoke_id = id; world = w }

  -- The turns of the loop that are left: `success`, and the state.
  pub write_loop : WriteArgs → ℕ → BacnetClient W → Bool × BacnetClient W
  write_loop args zero s = (false, s)
  write_loop args (suc turns) s =
      let sent = write_loop args turns (receive_reply (send args s)) in
      let again = write_loop args turns (receive_reply s) in
      if s.request_invoke_id == 0
      then sent
      else if lib.tsm_invoke_id_free s.request_invoke_id s.world
      then (true, s)
      else if lib.tsm_invoke_id_failed s.request_invoke_id s.world
      then (
        false,
        record s {
          error_detected = true;
          world = lib.tsm_free_invoke_id s.request_invoke_id s.world;
        },
      )
      else again

  -- What follows the loop.
  pub finish : Bool × BacnetClient W → ℤ × BacnetClient W
  finish (success, s) =
      let w = if success then s.world else lib.tsm_free_invoke_id s.request_invoke_id s.world in
      (if s.error_detected then neg_one else pos 0, record s { request_invoke_id = 0; world = w })

  -- After `address_bind_request`.
  pub bound : WriteArgs → BacnetClient W → Bool × W → ℤ × BacnetClient W
  bound args s (found, w) =
      let s' : BacnetClient W = record s { world = w } in
      if not found then (neg_one, s') else finish (write_loop args 2 s')

  -- `bacnet_write_property(args)`
  pub bacnet_write_property : WriteArgs → BacnetClient W → ℤ × BacnetClient W
  bacnet_write_property args s =
      bound args
        (record s { target_value = context_of args.object_property_value_type s.target_value })
        (lib.address_bind_request args.device_id s.world)

  -- `memcpy_read_args(args)`: its guard wants a number that is both below 1 and too large.
  pub memcpy_read_args : ReadArgs → BacnetClient W → ℤ × BacnetClient W
  memcpy_read_args args s =
      if s.init
      then (pos 0, s)
      else (pos 0, record s { read_access_data = asked_rows args; init = true })

  -- After `address_bind_request` in the read.
  pub read_bound : ReadArgs → BacnetClient W → Bool × W → ℤ × BacnetClient W
  read_bound args s (found, w) =
      if found
      then (
        pos 0,
        record s { world = (lib.send_read_multiple args.reader_id s.read_access_data w).1 },
      )
      else (neg_one, record s { world = w })

  -- `bacnet_read_property(args)`
  pub bacnet_read_property : ReadArgs → BacnetClient W → ℤ × BacnetClient W
  bacnet_read_property args s =
      let (retval, s') = memcpy_read_args args s in
      read_bound args s' (lib.address_bind_request args.reader_id s'.world)

  -- The switch on the code: 3 is BACNET_FUNCTION_CODE_READ_MULTIPLE_PROPERTY.
  pub dispatch : BacnetPort → BacnetCode → BacnetClient W → BacnetClient W
  dispatch h write_property s = (bacnet_write_property h.write_arg s).1
  dispatch h read_property s = (bacnet_read_property h.read_arg s).1
  dispatch h (other_bacnet_code n) s = if n == 3 then (bacnet_read_property h.read_arg s).1 else s

  -- The message after its `send_handle`.
  pub after_handle : ℤ × Option BacnetPort → BacnetClient W → BacnetClient W
  after_handle (nbyte, none) s = s
  after_handle (nbyte, some h) s = if is_neg nbyte then s else dispatch h h.code s

  -- One message of the queue with its `send_handle`, of which `none` is NULL.
  pub bacnet_message :
      Option (Option BacnetPort → ℤ × Option BacnetPort)
      → BacnetPort
      → BacnetClient W
      → BacnetClient W
  bacnet_message none h s = s
  bacnet_message (some send_handle) h s = after_handle (send_handle (some h)) s

  -- `bacnet_work_thread_function`, on the messages that the queue gives.
  pub bacnet_work :
      List (Option (Option BacnetPort → ℤ × Option BacnetPort) × BacnetPort)
      → BacnetClient W
      → BacnetClient W
  bacnet_work [] s = s
  bacnet_work (m ∷ messages) s = bacnet_work messages (bacnet_message m.0 m.1 s)
