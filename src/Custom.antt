-- ===== src/Custom.antt =====
-- The worker of the custom bus, do_bus_message of app/rs485d/src/protocol/custom/custom.c, with the frames of
-- app/rs485d/src/protocol/custom/interface.c. The operating system is a parameter on a state of the world.
pub mod Message
pub mod Interface
pub mod Queue
pub mod Probe
pub mod Dooya
pub mod Service
mod Tests
use rs.Prelude.{
  ℕ, zero, suc, ◌-◌, ◌*◌, ◌^◌, ◌≡◌, Bool, true, false, ◌&&◌, ◌||◌, not, Option, none, some, List, ℤ,
  pos, negsuc, neg_einval, is_neg, is_nonzero, replicate, ltb, ◌==◌, if◌then◌else◌,
}

-- `write`, `select` with a timeout in milliseconds, FD_ISSET, and `read` into a frame.
pub record Os (W : Type 0) : Type 0 where
  pub write : List ℕ → ℕ → W → ℤ × W
  pub select : ℕ → W → ℤ × W
  pub is_set : W → Bool
  pub read : List ℕ → ℕ → W → ℤ × List ℕ × W

-- `struct rs485_driver` with its `struct rs485_driver_data`; `none` is NULL. `get` makes the frame of
-- the message and says whether it is a broadcast, and `put` handles a reply. Both take the data of
-- the message, given by the number of its node, and `put` takes the device's `device_data`.
pub record Driver (W : Type 0) : Type 0 where
  pub get : Option (ℕ → List ℕ → Bool → W → ℤ × List ℕ × Bool × W)
  pub put : Option (ℕ → ℕ → List ℕ → ℕ → W → ℤ × W)
  pub retransmission : ℕ
  pub receive_timeout_ms : ℕ
  pub broadcast : Bool

-- CUSTOM_STACK_BUFFER_SIZE, CUSTOM_DATA_RETRANSMISSION_MAX, CUSTOM_DATA_TIMEOUT_MAX
abbrev pub custom_stack_buffer_size : ℕ
custom_stack_buffer_size = 256

abbrev pub custom_data_retransmission_max : ℕ
custom_data_retransmission_max = 3

abbrev pub custom_data_timeout_max : ℕ
custom_data_timeout_max = 1000

abbrev pub neg_etimedout : ℤ
neg_etimedout = negsuc 109

-- One turn of the loop's body: it returns, or it reaches the test of the loop with `retval`, the
-- buffer and the flag `broadcast`.
pub data Turn (W : Type 0) : Type 0 where
  returns : W → Turn W
  tests : ℤ → List ℕ → Bool → W → Turn W

-- `-- retransmission` of an `unsigned int`
abbrev pub decrement : ℕ → ℕ
decrement zero = 2 ^ 32 - 1
decrement (suc n) = n

abbrev pub limit : ℕ → ℕ → ℕ
limit most n = if ltb most n then most else n

module _ {W : Type 0} (os : Os W) where
  -- `interface_send_a_frame(fd, frame, len)`
  pub interface_send_a_frame : Option (List ℕ) → ℕ → W → ℤ × W
  interface_send_a_frame none len w = (neg_einval, w)
  interface_send_a_frame (some frame) len w = os.write frame len w

  -- What follows `select`.
  pub selected : List ℕ → ℕ → ℤ × W → ℤ × List ℕ × W
  selected frame len (negsuc e, w) = (negsuc e, frame, w)
  selected frame len (pos zero, w) = (neg_etimedout, frame, w)
  selected frame len (pos (suc n), w) =
      if os.is_set w then os.read frame len w else (pos (suc n), frame, w)

  -- `interface_recv_a_frame(fd, frame, len, timeout)` on a frame that is not NULL.
  pub interface_recv_a_frame : List ℕ → ℕ → ℕ → W → ℤ × List ℕ × W
  interface_recv_a_frame frame len timeout w = selected frame len (os.select timeout w)

  module _ (driver : Driver W) (node device_data : ℕ) where
    -- The reply: `put` gets one that is not empty.
    pub replied : Option (ℕ → ℕ → List ℕ → ℕ → W → ℤ × W) → Bool → ℤ × List ℕ × W → Turn W
    replied handle broadcast (negsuc e, buffer, w) = tests (negsuc e) buffer broadcast w
    replied handle broadcast (pos zero, buffer, w) = tests (pos zero) buffer broadcast w
    replied none broadcast (pos (suc n), buffer, w) = returns w
    replied (some put) broadcast (pos (suc n), buffer, w) =
        let (retval, w') = put node device_data buffer (suc n) w in tests retval buffer broadcast w'

    -- The part of the body after the frame is sent.
    pub listen : List ℕ → Bool → W → Turn W
    listen buffer broadcast w =
        let timeout = limit custom_data_timeout_max driver.receive_timeout_ms in
        if driver.broadcast || broadcast
        then returns w
        else replied driver.put broadcast
            (interface_recv_a_frame buffer custom_stack_buffer_size timeout w)

    -- `if(retval) return;` after the frame is sent.
    pub sent : List ℕ → Bool → ℤ × W → Turn W
    sent buffer broadcast (retval, w) =
        if is_nonzero retval then returns w else listen buffer broadcast w

    -- The frame that `get` has made.
    pub made : ℤ × List ℕ × Bool × W → Turn W
    made (negsuc e, buffer, broadcast, w) = returns w
    made (pos n, buffer, broadcast, w) =
        if ltb custom_stack_buffer_size n
        then returns w
        else sent buffer broadcast (interface_send_a_frame (some buffer) n w)

    -- The body of the loop.
    pub body : Option (ℕ → List ℕ → Bool → W → ℤ × List ℕ × Bool × W) → List ℕ → Bool → W → Turn W
    body none buffer broadcast w = listen buffer broadcast w
    body (some get) buffer broadcast w = made (get node buffer broadcast w)

    -- `while(--retransmission && retval)`, with the loop for the turns that follow.
    pub settle : (ℕ → List ℕ → Bool → W → Option W) → ℕ → Turn W → Option W
    settle again n (returns w) = some w
    settle again n (tests retval buffer broadcast w) =
        let n' = decrement n in
        let rest = again n' buffer broadcast w in
        if not (n' == 0) && is_nonzero retval then rest else some w

    -- The loop; `none` is out of fuel.
    pub loop : ℕ → ℕ → List ℕ → Bool → W → Option W
    loop zero n buffer broadcast w = none
    loop (suc fuel) n buffer broadcast w = settle (loop fuel) n (body driver.get buffer broadcast w)

  -- `do_bus_message(stack, node)`, for the driver of the node's device and its `device_data`; `none`
  -- for a device that is not there or has no driver.
  pub do_bus_message : ℕ → ℕ → Option (Driver W × ℕ) → W → Option W
  do_bus_message fuel node none w = some w
  do_bus_message fuel node (some (driver, device_data)) w =
      loop driver node device_data fuel (limit custom_data_retransmission_max driver.retransmission)
        (replicate custom_stack_buffer_size 0) false w
