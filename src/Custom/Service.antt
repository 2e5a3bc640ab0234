-- ===== src/Custom/Service.antt =====
-- The thread of the custom bus with do_bus_message for its messages, the table of devices and their
-- drivers.
use rs.Prelude.{
  handle_all, ℕ, ◌≤◌, ◌≡◌, refl, ap, ◌∙◌, true, Option, none, some, List, [], ℤ, length, replicate,
  arith,
}
use rs.Table.Devices.{Devices, get_device_by_id}
use rs.Custom.{Os, Driver, do_bus_message}
use rs.Custom.Message.{Exchange, do_bus_message-Ends, do_bus_message-Exchange}
use rs.Custom.Queue.Drain.{run-drains}
use rs.Custom.Queue.Fifo.{Call, turn, Run, IsFifo, run}

module _ {W : Type 0} (os : Os W) (ids : Devices) (driver : ℕ → Option (Driver W))
    (device_id : ℕ → ℤ) (device_data : ℕ → ℕ) where
  -- `device->driver` and `device->device_data` of a device.
  pub driven : ℕ → Option (Driver W) → Option (Driver W × ℕ)
  driven device none = none
  driven device (some d) = some (d, device_data device)

  -- The same of the device that the table gives.
  pub driver_at : Option ℕ → Option (Driver W × ℕ)
  driver_at none = none
  driver_at (some device) = driven device (driver device)

  -- `do_bus_message(stack, node)` with `get_device_by_id(node->data.device_id)`, on three turns of
  -- its loop.
  pub message : ℕ → W → Option W
  message node w = do_bus_message os 3 node (driver_at (get_device_by_id ids (device_id node))) w

  -- The world after a message, or the old one if the loop has not ended.
  pub ended : Option W → W → W
  ended none w = w
  ended (some w') w = w'

  pub handle : ℕ → W → W
  handle node w = ended (message node w) w

  -- Every driver allows at least one transmission.
  unfoldable pub Transmits : Type 0
  Transmits = (device : ℕ) (d : Driver W) → driver device ≡ some d → 1 ≤ d.retransmission

  do_bus_message_ends :
      (node : ℕ) (o : Option (Driver W × ℕ)) (w : W)
      → ((d : Driver W × ℕ) → o ≡ some d → 1 ≤ d.0.retransmission)
      → (w' : W) × (do_bus_message os 3 node o w ≡ some w')
  unfolding do_bus_message
  do_bus_message_ends node none w transmits = (w, refl)
  do_bus_message_ends node (some (d, k)) w transmits =
      do_bus_message-Ends os d node k w (transmits (d, k) refl)

  -- A message to a device of the table that has an exchange with its driver.
  pub record Exchanged (node : ℕ) (w : W) : Type 0 where
    pub device : ℕ
    pub its_driver : Driver W
    pub after : W
    pub known : get_device_by_id ids (device_id node) ≡ some device
    pub drives : driver device ≡ some its_driver
    pub exchange : Exchange os its_driver node (device_data device) w after

  -- The world after the messages, each of which ends, where an exchange leaves it if there is one.
  pub record Served (accepted : List ℕ) (w0 : W) (r : Run W) : Type 0 where
    pub ends : (node : ℕ) (w : W) → message node w ≡ some (handle node w)
    pub exchanges : (node : ℕ) (w : W) (x : Exchanged node w) → message node w ≡ some x.after
    pub empty : r.stack.list ≡ []
    pub defined : r.defined ≡ true
    pub world : r.stack.world ≡ handle_all handle accepted w0

  module _ (transmits : Transmits) where
    driven-Transmits :
        (device : ℕ) (o : Option (Driver W)) (d : Driver W × ℕ)
        → driver device ≡ o
        → driven device o ≡ some d
        → 1 ≤ d.0.retransmission
    unfolding driven Transmits
    driven-Transmits device none d has e = absurd (ground (arith, e))
    driven-Transmits device (some d') (d, k) has e = transmits device d (has ∙ ground (arith, e))

    driver_at-Transmits :
        (o : Option ℕ) (d : Driver W × ℕ) → driver_at o ≡ some d → 1 ≤ d.0.retransmission
    unfolding driver_at
    driver_at-Transmits none d e = absurd (ground (arith, e))
    driver_at-Transmits (some device) d e = driven-Transmits device (driver device) d refl e

    message_ends : (node : ℕ) (w : W) → message node w ≡ some (handle node w)
    unfolding message handle ended
    message_ends node w =
        let o = get_device_by_id ids (device_id node) in
        let (w', ran) = do_bus_message_ends node (driver_at o) w (driver_at-Transmits o) in
        rw ran refl

    message-Exchanged : (node : ℕ) (w : W) (x : Exchanged node w) → message node w ≡ some x.after
    unfolding message driver_at driven
    message-Exchanged node w x =
        ap (λ o. do_bus_message os 3 node (driver_at o) w) x.known
        ∙ ap (λ o. do_bus_message os 3 node (driven x.device o) w) x.drives
        ∙ do_bus_message-Exchange os x.its_driver node (device_data x.device) 2 x.exchange

    -- With drivers that allow at least one transmission, and no `sem_wait` broken off: after any calls, as many turns of the
    -- thread as there are messages on the list leave it empty, and no turn takes a node of an empty
    -- list; every message ends; one that has an exchange with the driver of its device, for the data
    -- of its node and the device's `device_data`, ends in the world of that exchange; and the world
    -- is the one that do_bus_message has made of the accepted messages, in their order.
    pub service-drains :
        (r : Run W) (calls : List Call) (w0 : W)
        → IsFifo handle w0 r
        → let r' = run handle r calls in
          Served r'.accepted w0 (run handle r' (replicate (length r'.stack.list) turn))
    service-drains r calls w0 f =
        let (empty, world, defined) = run-drains handle w0 r calls f in
        record {
          ends = message_ends;
          exchanges = message-Exchanged;
          empty = empty;
          defined = defined;
          world = world;
        }
