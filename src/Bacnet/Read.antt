-- ===== src/Bacnet/Read.antt =====
-- What the reads ask for.
use rs.Prelude.{◌≡◌, refl, ap, ◌∙◌, Bool, true, false, Option, List, ℤ, pos, if◌then◌else◌}
use rs.Device.York.{ReadArgs, BacnetPort}
use rs.Bacnet.{
  BacnetStack, BacnetClient, ReadAccess, asked_rows, memcpy_read_args, read_bound,
  bacnet_read_property, bacnet_work,
}
use rs.Bacnet.Work.{bacnet_work-Stays}

module _ {W : Type 0} (lib : BacnetStack W) where
  -- The objects are set, and they are these.
  record AsksFor (rows : List ReadAccess) (s : BacnetClient W) : Type 0 where
    set : s.init ≡ true
    objects : s.read_access_data ≡ rows

  memcpy_first :
      (args : ReadArgs) (s : BacnetClient W)
      → s.init ≡ false
      → memcpy_read_args lib args s
        ≡ (pos 0, record s { read_access_data = asked_rows args; init = true })
  unfolding memcpy_read_args
  memcpy_first args s first =
      ap
        (λ b.
          if b
          then (pos 0, s)
          else (pos 0, record s { read_access_data = asked_rows args; init = true }))
        first

  memcpy_later :
      (args : ReadArgs) (s : BacnetClient W)
      → s.init ≡ true
      → memcpy_read_args lib args s ≡ (pos 0, s)
  unfolding memcpy_read_args
  memcpy_later args s done =
      ap
        (λ b.
          if b
          then (pos 0, s)
          else (pos 0, record s { read_access_data = asked_rows args; init = true }))
        done

  read_bound-AsksFor :
      (args : ReadArgs) (rows : List ReadAccess) (s : BacnetClient W) (r : Bool × W)
      → AsksFor rows s
      → AsksFor rows (read_bound lib args s r).1
  unfolding read_bound
  read_bound-AsksFor args rows s (true, w) a = record { set = a.set; objects = a.objects }
  read_bound-AsksFor args rows s (false, w) a = record { set = a.set; objects = a.objects }

  first_read :
      (args : ReadArgs) (s : BacnetClient W)
      → s.init ≡ false
      → AsksFor (asked_rows args) (bacnet_read_property lib args s).1
  unfolding bacnet_read_property
  first_read args s first = rw (memcpy_first args s first) (
      read_bound-AsksFor args (asked_rows args) filled
        (lib.address_bind_request args.reader_id s.world) (record { set = refl; objects = refl }))
    where
      filled : BacnetClient W
      filled = record s { read_access_data = asked_rows args; init = true }

  later_read :
      (args : ReadArgs) (rows : List ReadAccess) (s : BacnetClient W) (w : W)
      → AsksFor rows s
      → lib.address_bind_request args.reader_id s.world ≡ (true, w)
      → bacnet_read_property lib args s
        ≡ (pos 0, record s { world = (lib.send_read_multiple args.reader_id rows w).1 })
  unfolding bacnet_read_property read_bound
  later_read args rows s w a found = rw (memcpy_later args s a.set) (
      rw found (
        ap (λ l. (pos 0, record s { world = (lib.send_read_multiple args.reader_id l w).1 }))
          a.objects))

  -- After the first read, and any messages that follow, a read of other objects of a device whose
  -- address is known returns 0 and asks that device for the objects of the first read, which are taken to
  -- be no more than the static rows have room for.
  pub bacnet_read_property-first :
      (first later : ReadArgs)
      (messages : List (Option (Option BacnetPort → ℤ × Option BacnetPort) × BacnetPort))
      (s : BacnetClient W) (w : W)
      → s.init ≡ false
      → let s' = bacnet_work lib messages (bacnet_read_property lib first s).1 in
        lib.address_bind_request later.reader_id s'.world ≡ (true, w)
        → bacnet_read_property lib later s' ≡ (
          pos 0,
          record s' { world = (lib.send_read_multiple later.reader_id (asked_rows first) w).1 },
        )
  bacnet_read_property-first first later messages s w fresh found =
      let s1 = (bacnet_read_property lib first s).1 in
      let a = first_read first s fresh in
      let stays = bacnet_work-Stays lib messages s1 in
      later_read later (asked_rows first) (bacnet_work lib messages s1) w
        (record { set = stays.set a.set; objects = stays.fixed a.set ∙ a.objects }) found
