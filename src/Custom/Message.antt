-- ===== src/Custom/Message.antt =====
-- One message of the custom bus: the loop ends, and what it does after a frame is sent.
use rs.Prelude.{
  ℕ, zero, suc, ◌≤◌, ◌≡◌, refl, ap, ap₂, ◌∙◌, Bool, true, false, Option, some, List, ℤ, pos, inl,
  inr, Bool-cases, is_nonzero, replicate, ltb, not, ◌||◌, ◌==◌, if◌then◌else◌, arith,
}
use rs.Custom.{
  Os, Driver, Turn, returns, tests, limit, custom_stack_buffer_size, custom_data_retransmission_max,
  interface_send_a_frame, interface_recv_a_frame, decrement, replied, listen, sent, made, body,
  settle, loop, do_bus_message,
}

module _ {W : Type 0} (os : Os W) (driver : Driver W) (node device_data : ℕ) where
  -- A turn with transmissions left ends if the turns after it do.
  settle_ends :
      (again : ℕ → List ℕ → Bool → W → Option W) (n : ℕ) (t : Turn W)
      → ((buffer : List ℕ) (broadcast : Bool) (w : W)
          → 1 ≤ n
          → (w' : W) × (again n buffer broadcast w ≡ some w'))
      → (w' : W) × (settle os driver node device_data again (suc n) t ≡ some w')
  unfolding settle
  settle_ends again n (returns w) later = (w, refl)
  settle_ends again zero (tests retval buffer broadcast w) later = (w, refl)
  settle_ends again (suc n) (tests retval buffer broadcast w) later =
      elim (Bool-cases (is_nonzero retval)) [
        | inl fails ↦ let (w', ran) = later buffer broadcast w (omega arith) in (w', ground arith)
        | inr good ↦ (w, ground arith)
      ]

  loop_ends :
      (fuel n : ℕ) (buffer : List ℕ) (broadcast : Bool) (w : W)
      → 1 ≤ n
      → n ≤ fuel
      → (w' : W) × (loop os driver node device_data fuel n buffer broadcast w ≡ some w')
  unfolding loop
  loop_ends zero n buffer broadcast w some_turn enough = absurd (omega arith)
  loop_ends (suc fuel) zero buffer broadcast w some_turn enough = absurd (omega arith)
  loop_ends (suc fuel) (suc n) buffer broadcast w some_turn enough =
      settle_ends (loop os driver node device_data fuel) n
        (body os driver node device_data driver.get buffer broadcast w)
        (λ buffer' broadcast' w' left. loop_ends fuel n buffer' broadcast' w' left (omega arith))

  -- With a driver that allows at least one transmission, a message ends within three turns.
  pub do_bus_message-Ends :
      (w : W)
      → 1 ≤ driver.retransmission
      → (w' : W) × (do_bus_message os 3 node (some (driver, device_data)) w ≡ some w')
  unfolding do_bus_message
  do_bus_message-Ends w some_turn =
      loop_ends 3 (limit custom_data_retransmission_max driver.retransmission)
        (replicate custom_stack_buffer_size 0) false w (ground arith) (ground arith)

  -- One exchange with the device, from the world `w` to `after`. The driver makes a frame from the data
  -- of this node, in a cleared buffer, and `write` takes it. It gives anything but 0, and no reply is
  -- awaited; or it gives 0, and the driver accepts the reply to this node, with this `device_data`.
  pub data Exchange (w after : W) : Type 0 where
    unanswered :
        {get : ℕ → List ℕ → Bool → W → ℤ × List ℕ × Bool × W} {n : ℕ} {frame : List ℕ}
        {broadcast : Bool} {retval : ℤ} {w1 : W}
        → driver.get ≡ some get
        → get node (replicate 256 0) false w ≡ (pos n, frame, broadcast, w1)
        → n ≤ 256
        → os.write frame n w1 ≡ (retval, after)
        → is_nonzero retval ≡ true
        → Exchange w after
    answered :
        {get : ℕ → List ℕ → Bool → W → ℤ × List ℕ × Bool × W} {put : ℕ → ℕ → List ℕ → ℕ → W → ℤ × W}
        {n m : ℕ} {frame reply : List ℕ} {w1 w2 w3 : W}
        → driver.get ≡ some get
        → driver.put ≡ some put
        → driver.broadcast ≡ false
        → get node (replicate 256 0) false w ≡ (pos n, frame, false, w1)
        → n ≤ 256
        → os.write frame n w1 ≡ (pos 0, w2)
        → interface_recv_a_frame os frame 256 (limit 1000 driver.receive_timeout_ms) w2
          ≡ (pos (suc m), reply, w3)
        → put node device_data reply (suc m) w3 ≡ (pos 0, after)
        → Exchange w after

  -- The part of the body up to `write`.
  body-written :
      {get : ℕ → List ℕ → Bool → W → ℤ × List ℕ × Bool × W} {n : ℕ} {frame buffer : List ℕ}
      {broadcast : Bool} {w w' : W}
      → driver.get ≡ some get
      → get node buffer false w ≡ (pos n, frame, broadcast, w')
      → n ≤ 256
      → body os driver node device_data driver.get buffer false w
        ≡ sent os driver node device_data frame broadcast (os.write frame n w')
  unfolding body made interface_send_a_frame
  body-written {n = n} {frame = frame} {buffer = buffer} {broadcast = broadcast} {w = w} {w' = w'}
        has makes small =
      let fits : ltb custom_stack_buffer_size n ≡ false = ground arith in
      ap (λ g. body os driver node device_data g buffer false w) has
      ∙ ap (made os driver node device_data) makes
      ∙ ap
          (λ b.
            if b
            then returns w'
            else sent os driver node device_data frame broadcast (os.write frame n w'))
          fits

  settle_last :
      (again : ℕ → List ℕ → Bool → W → Option W) (n : ℕ) (buffer : List ℕ) (broadcast : Bool)
      (w : W)
      → settle os driver node device_data again n (tests (pos 0) buffer broadcast w) ≡ some w
  unfolding settle
  settle_last again n buffer broadcast w = elim (Bool-cases (not (decrement n == 0))) [
    | inl more ↦ ground arith
    | inr last ↦ ground arith
  ]

  listen-answered :
      {put : ℕ → ℕ → List ℕ → ℕ → W → ℤ × W} {m : ℕ} {reply : List ℕ} {w3 after : W}
      (frame : List ℕ) (w2 : W)
      → driver.broadcast ≡ false
      → driver.put ≡ some put
      → interface_recv_a_frame os frame 256 (limit 1000 driver.receive_timeout_ms) w2
        ≡ (pos (suc m), reply, w3)
      → put node device_data reply (suc m) w3 ≡ (pos 0, after)
      → listen os driver node device_data frame false w2 ≡ tests (pos 0) reply false after
  unfolding listen replied
  listen-answered {reply = reply} frame w2 single takes receives accepted =
      ap
        (λ b.
          if b || false
          then returns w2
          else replied os driver node device_data driver.put false
              (interface_recv_a_frame os frame 256 (limit 1000 driver.receive_timeout_ms) w2))
        single
      ∙ ap₂ (λ p x. replied os driver node device_data p false x) takes receives
      ∙ ap (λ x. tests x.0 reply false x.1) accepted

  -- A message that has an exchange ends in its world.
  pub do_bus_message-Exchange :
      (fuel : ℕ) {w after : W}
      → Exchange w after
      → do_bus_message os (suc fuel) node (some (driver, device_data)) w ≡ some after
  unfolding do_bus_message loop settle sent
  do_bus_message-Exchange fuel {w} {after}
        (unanswered {frame = frame} {broadcast = broadcast} has makes small writes accepted) =
      ap
        (settle os driver node device_data (loop os driver node device_data fuel)
          (limit custom_data_retransmission_max driver.retransmission))
        (body-written has makes small
          ∙ ap (sent os driver node device_data frame broadcast) writes
          ∙ ap
              (λ b.
                if b
                then returns after
                else listen os driver node device_data frame broadcast after)
              accepted)
  do_bus_message-Exchange fuel {w} {after}
        (answered {put = put} {frame = frame} {reply = reply} {w2 = w2} has takes single makes small
          writes receives accepted) =
      ap
        (settle os driver node device_data (loop os driver node device_data fuel)
          (limit custom_data_retransmission_max driver.retransmission))
        (body-written has makes small
          ∙ ap (sent os driver node device_data frame false) writes
          ∙ listen-answered frame w2 single takes receives accepted)
      ∙ settle_last (loop os driver node device_data fuel)
          (limit custom_data_retransmission_max driver.retransmission) reply false after
