-- ===== src/Bacnet/Work.antt =====
-- What every message leaves of the worker's static variables.
use rs.Prelude.{
  ℕ, zero, suc, ◌≡◌, refl, ◌∙◌, Bool, true, false, Option, none, some, List, [], ◌∷◌, ℤ, pos,
  is_neg, arith, Bool-cases, inl, inr, ◌==◌, if◌then◌else◌,
}
use rs.Device.York.{
  WriteArgs, ReadArgs, BacnetPort, BacnetCode, write_property, read_property, other_bacnet_code,
}
use rs.Bacnet.{
  BacnetStack, BacnetClient, context_of, asked_rows, receive_reply, send, write_loop, finish, bound,
  bacnet_write_property, memcpy_read_args, read_bound, bacnet_read_property, dispatch, after_handle,
  bacnet_message, bacnet_work,
}

module _ {W : Type 0} where
  -- The state `s'` after `s`: an idle id is idle again, an error is never forgotten, and the objects
  -- that are asked for are never changed once they are set.
  pub record Stays (s s' : BacnetClient W) : Type 0 where
    pub idle : s.request_invoke_id ≡ 0 → s'.request_invoke_id ≡ 0
    pub faulty : s.error_detected ≡ true → s'.error_detected ≡ true
    pub set : s.init ≡ true → s'.init ≡ true
    pub fixed : s.init ≡ true → s'.read_access_data ≡ s.read_access_data

  stays : (s : BacnetClient W) → Stays s s
  stays s = record { idle = λ e. e; faulty = λ e. e; set = λ e. e; fixed = λ e. refl }

  then-Stays : (s s' s'' : BacnetClient W) → Stays s s' → Stays s' s'' → Stays s s''
  then-Stays s s' s'' a b = record {
    idle = λ e. b.idle (a.idle e);
    faulty = λ e. b.faulty (a.faulty e);
    set = λ e. b.set (a.set e);
    fixed = λ e. b.fixed (a.set e) ∙ a.fixed e;
  }

  module _ (lib : BacnetStack W) where
    -- The loop of a write: the same but for the id.
    record Turned (s s' : BacnetClient W) : Type 0 where
      faulty : s.error_detected ≡ true → s'.error_detected ≡ true
      set : s'.init ≡ s.init
      fixed : s'.read_access_data ≡ s.read_access_data

    write_loop-Turned :
        (args : WriteArgs) (n : ℕ) (s : BacnetClient W) → Turned s (write_loop lib args n s).1
    unfolding write_loop receive_reply send
    write_loop-Turned args zero s = record { faulty = λ e. e; set = refl; fixed = refl }
    write_loop-Turned args (suc n) s = elim (Bool-cases (s.request_invoke_id == 0)) [
      | inl fresh ↦ rw fresh (
          let t = write_loop-Turned args n (receive_reply lib (send lib args s)) in
          record { faulty = t.faulty; set = t.set; fixed = t.fixed })
      | inr asked ↦ elim (Bool-cases (lib.tsm_invoke_id_free s.request_invoke_id s.world)) [
        | inl acknowledged ↦
            rw asked (rw acknowledged (record { faulty = λ e. e; set = refl; fixed = refl }))
        | inr pending ↦ elim (Bool-cases (lib.tsm_invoke_id_failed s.request_invoke_id s.world)) [
          | inl failed ↦
              rw asked
                (rw pending (rw failed (record { faulty = λ e. refl; set = refl; fixed = refl })))
          | inr waits ↦ rw asked (
              rw pending (
                rw waits (
                  let t = write_loop-Turned args n (receive_reply lib s) in
                  record { faulty = t.faulty; set = t.set; fixed = t.fixed })))
        ]
      ]
    ]

    bound-Stays :
        (args : WriteArgs) (s : BacnetClient W) (r : Bool × W) → Stays s (bound lib args s r).1
    unfolding bound finish
    bound-Stays args s (false, w) = record {
      idle = λ e. e;
      faulty = λ e. e;
      set = λ e. e;
      fixed = λ e. refl;
    }
    bound-Stays args s (true, w) =
        let t = write_loop-Turned args 2 (record s { world = w }) in
        record { idle = λ e. refl; faulty = t.faulty; set = λ e. t.set ∙ e; fixed = λ e. t.fixed }

    bacnet_write_property-Stays :
        (args : WriteArgs) (s : BacnetClient W) → Stays s (bacnet_write_property lib args s).1
    unfolding bacnet_write_property
    bacnet_write_property-Stays args s =
        let s' : BacnetClient W = record s {
          target_value = context_of args.object_property_value_type s.target_value;
        } in
        let b = bound-Stays args s' (lib.address_bind_request args.device_id s.world) in
        record { idle = b.idle; faulty = b.faulty; set = b.set; fixed = b.fixed }

    read_bound-Stays :
        (args : ReadArgs) (s : BacnetClient W) (r : Bool × W) → Stays s (read_bound lib args s r).1
    unfolding read_bound
    read_bound-Stays args s (false, w) = record {
      idle = λ e. e;
      faulty = λ e. e;
      set = λ e. e;
      fixed = λ e. refl;
    }
    read_bound-Stays args s (true, w) = record {
      idle = λ e. e;
      faulty = λ e. e;
      set = λ e. e;
      fixed = λ e. refl;
    }

    memcpy_read_args-Stays :
        (args : ReadArgs) (s : BacnetClient W) → Stays s (memcpy_read_args lib args s).1
    unfolding memcpy_read_args
    memcpy_read_args-Stays args s = at s.init refl
      where
        at :
            (init : Bool)
            → s.init ≡ init
            → let filled : BacnetClient W = record s {
              read_access_data = asked_rows args;
              init = true;
            } in
              let r : ℤ × BacnetClient W = if init then (pos 0, s) else (pos 0, filled) in
              Stays s r.1
        at true done = stays s
        at false first = record {
          idle = λ e. e;
          faulty = λ e. e;
          set = λ e. refl;
          fixed = λ e. absurd (ground (arith, e, first));
        }

    bacnet_read_property-Stays :
        (args : ReadArgs) (s : BacnetClient W) → Stays s (bacnet_read_property lib args s).1
    unfolding bacnet_read_property
    bacnet_read_property-Stays args s =
        let s' = (memcpy_read_args lib args s).1 in
        then-Stays s s' (bacnet_read_property lib args s).1 (memcpy_read_args-Stays args s)
          (read_bound-Stays args s' (lib.address_bind_request args.reader_id s'.world))

    dispatch-Stays :
        (h : BacnetPort) (code : BacnetCode) (s : BacnetClient W) → Stays s (dispatch lib h code s)
    unfolding dispatch
    dispatch-Stays h write_property s = bacnet_write_property-Stays h.write_arg s
    dispatch-Stays h read_property s = bacnet_read_property-Stays h.read_arg s
    dispatch-Stays h (other_bacnet_code n) s = elim (Bool-cases (n == 3)) [
      | inl multiple ↦ rw multiple (bacnet_read_property-Stays h.read_arg s)
      | inr other ↦ rw other (stays s)
    ]

    after_handle-Stays :
        (r : ℤ × Option BacnetPort) (s : BacnetClient W) → Stays s (after_handle lib r s)
    unfolding after_handle
    after_handle-Stays (nbyte, none) s = stays s
    after_handle-Stays (nbyte, some h) s = elim (Bool-cases (is_neg nbyte)) [
      | inl fails ↦ rw fails (stays s)
      | inr made ↦ rw made (dispatch-Stays h h.code s)
    ]

    bacnet_message-Stays :
        (m : Option (Option BacnetPort → ℤ × Option BacnetPort)) (h : BacnetPort)
        (s : BacnetClient W)
        → Stays s (bacnet_message lib m h s)
    unfolding bacnet_message
    bacnet_message-Stays none h s = stays s
    bacnet_message-Stays (some send_handle) h s = after_handle-Stays (send_handle (some h)) s

    -- Over any messages and whatever the BACnet stack answers: a write that starts without an open id
    -- ends without one; an error of one write stays noted for good; and the objects of the first
    -- read stay the objects of every later one.
    pub bacnet_work-Stays :
        (messages : List (Option (Option BacnetPort → ℤ × Option BacnetPort) × BacnetPort))
        (s : BacnetClient W)
        → Stays s (bacnet_work lib messages s)
    unfolding bacnet_work
    bacnet_work-Stays [] s = stays s
    bacnet_work-Stays (m ∷ messages) s =
        let s' = bacnet_message lib m.0 m.1 s in
        then-Stays s s' (bacnet_work lib messages s') (bacnet_message-Stays m.0 m.1 s)
          (bacnet_work-Stays messages s')
