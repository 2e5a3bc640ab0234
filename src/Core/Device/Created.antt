-- ===== src/Core/Device/Created.antt =====
-- The life of a device, from rs485_device_create to rs485_device_destroy.
use rs.Prelude.{
  ℕ, ◌≡◌, ◌⊎◌, inl, inr, refl, Option, some, List, ◌∷◌, arith, ℤ, pos, neg_enodev, length,
}
use rs.Bus.{Hooks, put}
use rs.Table.Devices.{Devices}
use rs.Table.Devices.Laws.{Assigned, IsFull, get_device_id-Assigned}
use rs.Core.{rs485_bus_match_by_name}
use rs.Core.Device.{
  DeviceInfo, Daemon, Rs485Device, bus_id_of, device_add, device_register, free, filled_device,
  after_device_register, after_id, after_match, rs485_device_create,
}

put_self : (f : ℕ → Rs485Device) (d : ℕ) (x : Rs485Device) → put f d x d ≡ x
put_self f d x = ground arith

module _ {W : Type 0} where
  -- The device has the id `i`, under which it is found, and is the first of the list, and nothing
  -- is freed.
  pub record Created (info : DeviceInfo) (b d i : ℕ) (s s' : Daemon W) : Type 0 where
    pub numbered : Assigned s.ids d i s'.ids
    pub described : s'.device d ≡ record { id = pos i; info = info; bus = b }
    pub listed : s'.rs485_device_list ≡ d ∷ s.rs485_device_list
    pub kept : s'.frees ≡ s.frees
    pub buses : s'.core.rs485_bus_list ≡ s.core.rs485_bus_list

  -- All ids are in use: the device is freed, and the list and the table are as before.
  pub record Refused (d : ℕ) (s s' : Daemon W) : Type 0 where
    pub full : IsFull s.ids
    pub table : s'.ids.table ≡ s.ids.table
    pub listed : s'.rs485_device_list ≡ s.rs485_device_list
    pub freed : s'.frees ≡ d ∷ s.frees

  abbrev pub CreateResult : DeviceInfo → ℕ → ℕ → Daemon W → ℤ × Option ℤ × Daemon W → Type 0
  CreateResult info b d s r =
      ((i : ℕ) × (r.0 ≡ pos 0) × (r.1 ≡ some (pos i)) × Created info b d i s r.2)
      ⊎ ((r.0 ≡ neg_enodev) × Refused d s r.2)

  module _ (numbered : List ℕ → ℕ) (hooks : Hooks) where
    after_id-Created :
        (info : DeviceInfo) (b d i : ℕ) (ids : Devices) (s : Daemon W)
        → Assigned s.ids d i ids
        → ((after_id numbered hooks info b d (pos i, ids) s).0 ≡ pos 0)
          × Created info b d i s (after_id numbered hooks info b d (pos i, ids) s).1
    unfolding after_id after_device_register device_register device_add bus_id_of filled_device
    after_id-Created info b d i ids s a = (
      refl,
      record {
        numbered = a;
        described = put_self s.device d (record { id = pos i; info = info; bus = b });
        listed = refl;
        kept = refl;
        buses = refl;
      },
    )

    after_match-Result :
        (info : DeviceInfo) (b d : ℕ) (s : Daemon W)
        → length s.ids.table ≡ 1024
        → CreateResult info b d s (after_match numbered hooks info (some b) (some d) s)
    unfolding after_match after_id free
    after_match-Result info b d s len = elim (get_device_id-Assigned s.ids d len) [
      | inl (i, t', e, a) ↦
          rw e (let (r, c) = after_id-Created info b d i t' s a in inl (i, r, refl, c))
      | inr (full, minus, same, wrong) ↦
          rw minus (inr (refl, record { full = full; table = same; listed = refl; freed = refl }))
    ]

    -- On a bus of the list and with memory: the device gets an id that was free, stands under it in
    -- the table and first on the list, with its information, and no other id changes; or all ids
    -- are in use, the result is -ENODEV, the device is freed, and table and list are as before.
    pub rs485_device_create-Result :
        (info : DeviceInfo) (b d : ℕ) (s : Daemon W)
        → length s.ids.table ≡ 1024
        → rs485_bus_match_by_name info.match_bus s.core s.core.rs485_bus_list ≡ some b
        → CreateResult info b d s (rs485_device_create numbered hooks info (some d) s)
    unfolding rs485_device_create
    rs485_device_create-Result info b d s len found = rw found (after_match-Result info b d s len)
