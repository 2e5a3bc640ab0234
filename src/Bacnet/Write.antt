-- ===== src/Bacnet/Write.antt =====
-- The course of one write.
use rs.Prelude.{
  ℕ, suc, ◌≡◌, refl, ap, ◌∙◌, true, false, ℤ, pos, neg_one, arith, Bool-cases, inl, inr, ◌==◌,
  if◌then◌else◌,
}
use rs.Device.York.{WriteArgs}
use rs.Bacnet.{
  BacnetStack, BacnetClient, context_of, request_of, processed, receive_reply, send, write_loop,
  finish, bound, bacnet_write_property,
}

module _ {W : Type 0} (lib : BacnetStack W) where
  -- What a write makes of the id `id` of its request in the world `w` after the first datagram: the
  -- acknowledgement, the failure, whose id is released twice, or a second datagram, after which the
  -- id is released whatever has come.
  unfoldable pub write_result : ℕ → WriteArgs → BacnetClient W → W → ℤ × BacnetClient W
  write_result id args s w =
      let result = if s.error_detected then neg_one else pos 0 in
      let s' : BacnetClient W = record s {
        request_invoke_id = 0;
        target_value = context_of args.object_property_value_type s.target_value;
      } in
      if lib.tsm_invoke_id_free id w
      then (result, record s' { world = w })
      else if lib.tsm_invoke_id_failed id w
      then (
        neg_one,
        record s' {
          error_detected = true;
          world = lib.tsm_free_invoke_id id (lib.tsm_free_invoke_id id w);
        },
      )
      else (
        result,
        record s' { world = lib.tsm_free_invoke_id id (processed lib (lib.datalink_receive w)) },
      )

  -- The state in which the second turn starts.
  asked : WriteArgs → BacnetClient W → ℕ → W → BacnetClient W
  asked args s id w = record s {
    request_invoke_id = id;
    target_value = context_of args.object_property_value_type s.target_value;
    world = w;
  }

  second_turn :
      (args : WriteArgs) (s : BacnetClient W) (id : ℕ) (w : W)
      → finish lib (write_loop lib args 1 (asked args s (suc id) w))
        ≡ write_result (suc id) args s w
  unfolding asked finish write_loop write_result receive_reply
  second_turn args s id w =
      let old : (suc id == 0) ≡ false = ground arith in
      rw old (elim (Bool-cases (lib.tsm_invoke_id_free (suc id) w)) [
        | inl acknowledged ↦ rw acknowledged refl
        | inr pending ↦ elim (Bool-cases (lib.tsm_invoke_id_failed (suc id) w)) [
          | inl failed ↦ rw pending (rw failed refl)
          | inr waits ↦ rw pending (rw waits refl)
        ]
      ])

  write_loop-fresh :
      (args : WriteArgs) (n : ℕ) (s : BacnetClient W)
      → (s.request_invoke_id == 0) ≡ true
      → write_loop lib args (suc n) s ≡ write_loop lib args n (receive_reply lib (send lib args s))
  unfolding write_loop
  write_loop-fresh args n s fresh = rw fresh refl

  receive_reply-send :
      (args : WriteArgs) (s : BacnetClient W) (old id : ℕ) (w w' : W)
      → lib.send_write
          (request_of args (context_of args.object_property_value_type s.target_value))
          w
        ≡ (id, w')
      → receive_reply lib (send lib args (asked args s old w))
        ≡ asked args s id (processed lib (lib.datalink_receive w'))
  unfolding receive_reply send asked
  receive_reply-send args s old id w w' sent = rw sent refl

  first_turn :
      (args : WriteArgs) (s : BacnetClient W) (id : ℕ) (w w' : W)
      → s.request_invoke_id ≡ 0
      → lib.send_write
          (request_of args (context_of args.object_property_value_type s.target_value))
          w
        ≡ (suc id, w')
      → write_loop lib args 2 (asked args s s.request_invoke_id w)
        ≡ write_loop lib args 1 (asked args s (suc id) (processed lib (lib.datalink_receive w')))
  unfolding asked
  first_turn args s id w w' idle sent =
      write_loop-fresh args 1 (asked args s s.request_invoke_id w) (fresh s.request_invoke_id idle)
      ∙ ap (write_loop lib args 1)
          (receive_reply-send args s s.request_invoke_id (suc id) w w' sent)
    where
      fresh : (n : ℕ) → n ≡ 0 → (n == 0) ≡ true
      fresh n e = ground (arith, e)

  -- A write to a device whose address is known, by an idle client, sends one request; and what the
  -- stack says of its id after the first datagram decides: acknowledged, failed, or neither, when
  -- a second datagram is taken and the result is 0 all the same, unless an earlier write has failed.
  pub bacnet_write_property-result :
      (args : WriteArgs) (s : BacnetClient W) (id : ℕ) (w w' : W)
      → s.request_invoke_id ≡ 0
      → lib.address_bind_request args.device_id s.world ≡ (true, w)
      → lib.send_write
          (request_of args (context_of args.object_property_value_type s.target_value))
          w
        ≡ (suc id, w')
      → bacnet_write_property lib args s
        ≡ write_result (suc id) args s (processed lib (lib.datalink_receive w'))
  unfolding bacnet_write_property bound asked
  bacnet_write_property-result args s id w w' idle found sent = rw found (
      ap (finish lib) (first_turn args s id w w' idle sent)
      ∙ second_turn args s id (processed lib (lib.datalink_receive w')))
