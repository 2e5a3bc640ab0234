-- ===== src/Table/Devices/Tests.antt =====
-- The device table at start-up.
use rs.Prelude.{ℕ, ◌≡◌, ◌⊎◌, refl, none, some, ◌∷◌, pos, negsuc, replicate, first_from}
use rs.Table.Devices.{Devices, is_free, find_next_device_id, get_device_id, get_device_by_id}
use rs.Table.Devices.Laws.{Assigned, IsFull, get_device_id-Assigned}

abbrev fresh : Devices
fresh = record { table = some 9 ∷ some 8 ∷ replicate 1022 none; before = λ k. none }

first : (get_device_id fresh (some 7)).0 ≡ pos 2
unfolding get_device_id find_next_device_id first_from is_free
first = refl

get_device_id-Assigned_example :
    ((i : ℕ) × (t' : Devices) × (get_device_id fresh (some 7) ≡ (pos i, t'))
      × Assigned fresh 7 i t')
    ⊎ (IsFull fresh
        × ((get_device_id fresh (some 7)).0 ≡ negsuc 0)
        × ((get_device_id fresh (some 7)).1.table ≡ fresh.table)
        × (get_device_by_id (get_device_id fresh (some 7)).1 (negsuc 0) ≡ some 7))
get_device_id-Assigned_example = get_device_id-Assigned fresh 7 refl
