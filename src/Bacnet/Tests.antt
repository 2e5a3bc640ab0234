-- ===== src/Bacnet/Tests.antt =====
-- The worker of BACnet with a stack that acknowledges every request. The world counts the datagrams
-- and holds the object of the last request.
use rs.Prelude.{List, ℕ, ◌+◌, ◌≡◌, refl, true, false, some, [], ◌∷◌, pos}
use rs.Device.York.{WriteArgs, ReadArgs, BacnetPort, other_bacnet_code}
use rs.Device.York.Objects.{fan, writer}
use rs.Bacnet.{
  BacnetStack, BacnetClient, request_of, processed, bacnet_write_property, bacnet_read_property,
  bacnet_work,
}
use rs.Bacnet.Write.{write_result, bacnet_write_property-result}
use rs.Bacnet.Read.{bacnet_read_property-first}
use rs.Bacnet.Work.{Stays}
use rs.Bacnet.Thread.{Queued, bacnet_handle, bacnet-drains}
use rs.Worker.{work_turns}
use rs.Worker.Example.{list_queue, Holds, list-IsQueue, at_last, at_last-Reached}

abbrev line : BacnetStack (ℕ × ℕ)
line = record {
  address_bind_request = λ d w. (true, w);
  send_write = λ r w. (1, (w.0, r.object_instance));
  send_read_multiple = λ d rows w. (1, (w.0, 0));
  tsm_invoke_id_free = λ id w. true;
  tsm_invoke_id_failed = λ id w. false;
  tsm_free_invoke_id = λ id w. w;
  datalink_receive = λ w. (5, (w.0 + 1, w.1));
  npdu_handler = λ n w. w;
}

abbrev idle : BacnetClient (ℕ × ℕ)
idle = record {
  request_invoke_id = 0;
  target_value = record { context_tag = 0; context_specific = false };
  error_detected = false;
  read_access_data = [];
  init = false;
  world = (0, 0);
}

abbrev args : WriteArgs
args = record {
  device_id = 10003;
  object_type = 1;
  object_instance = 4;
  object_property = 85;
  object_property_priority = 16;
  object_property_index = 0;
  object_property_value_type = 4;
  object_property_value = [];
}

abbrev objects : ℕ → ReadArgs
objects n = record {
  reader_id = n;
  object_numbers = 1;
  object_types = 0 ∷ [];
  object_instances = n ∷ [];
  object_properties = 85 ∷ [];
}

bacnet_write_property-result_example :
    bacnet_write_property line args idle
    ≡ write_result line 1 args idle (processed line (5, (1, 4)))
unfolding request_of
bacnet_write_property-result_example =
    bacnet_write_property-result line args idle 0 (0, 0) (0, 4) refl refl refl

-- The second read names the device 10004 and gets the objects of the first.
bacnet_read_property-first_example :
    bacnet_read_property line
      (objects 10004)
      (bacnet_work line [] (bacnet_read_property line (objects 10003) idle).1)
    ≡ (
      pos 0,
      record (bacnet_work line [] (bacnet_read_property line (objects 10003) idle).1) {
        world =
            ((bacnet_work line [] (bacnet_read_property line (objects 10003) idle).1).world.0, 0);
      },
    )
bacnet_read_property-first_example =
    bacnet_read_property-first line (objects 10003) (objects 10004) [] idle
      (bacnet_work line [] (bacnet_read_property line (objects 10003) idle).1).world refl refl

-- The fan to middle, in the air conditioner at 0x13.
abbrev breeze : BacnetPort
breeze = record {
  code = other_bacnet_code 4;
  mac = 0x13 ∷ [];
  method = 53;
  write_arg = args;
  read_arg = objects 0;
}

-- The messages of the queue: every one asks for a breeze.
abbrev queued : List ℕ → Queued
queued bytes = (some (writer fan), breeze)

bacnet-drains_example :
    let handle = bacnet_handle line queued in
    let s = at_last handle idle in
    let s' = work_turns list_queue handle s.sem s in
    Stays idle s.world
    × Holds s'.queue []
    × (s'.world ≡ bacnet_work line (queued (5 ∷ []) ∷ queued (6 ∷ []) ∷ []) idle)
bacnet-drains_example =
    bacnet-drains line queued list_queue Holds idle list-IsQueue
      (at_last-Reached (bacnet_handle line queued) idle)
