-- ===== src/Table/Devices/Laws.antt =====
-- What the device table promises its callers.
use native.Mathlib.Decide.{dec_lt}
use rs.Prelude.{
  ℕ, ◌≤◌, ◌<◌, ◌≡◌, ◌≢◌, refl, sym, ap, ◌∙◌, ◌⊎◌, inl, inr, true, false, Option, none, some, pos,
  negsuc, arith, length, get_or, get_or-set, length-set, first_from, StopsAt, first_from_lem, ◌==◌,
  if◌then◌else◌,
}
use rs.Table.Devices.{
  Devices, check_id, read_slot, write_slot, is_free, find_next_device_id, get_device_id,
  free_device_id, get_device_by_id,
}

-- The id that is handed out: free before, the lowest from 1 on, and with the device behind it
-- afterwards; every other id keeps its device.
pub record Assigned (t : Devices) (d i : ℕ) (t' : Devices) : Type 0 where
  pub positive : 1 ≤ i
  pub in_range : i < 1024
  pub was_free : get_device_by_id t (pos i) ≡ none
  pub lowest : (k : ℕ) → 1 ≤ k → k < i → get_device_by_id t (pos k) ≢ none
  pub found : get_device_by_id t' (pos i) ≡ some d
  pub others : (k : ℕ) → k ≢ i → get_device_by_id t' (pos k) ≡ get_device_by_id t (pos k)
  pub size : length t'.table ≡ length t.table

-- The table with every id from 1 on in use.
abbrev pub IsFull : Devices → Type 0
IsFull t = (k : ℕ) → 1 ≤ k → k < 1024 → get_device_by_id t (pos k) ≢ none

by_id : (t : Devices) (k : ℕ) → k < 1024 → get_device_by_id t (pos k) ≡ get_or t.table k none
unfolding get_device_by_id check_id read_slot
by_id t k lt = ground arith

free_none : (t : Devices) (k : ℕ) → is_free t k ≡ true → get_or t.table k none ≡ none
unfolding is_free
free_none t k h = ground arith

used_some : (t : Devices) (k : ℕ) → is_free t k ≡ false → get_or t.table k none ≢ none
unfolding is_free
used_some t k h = ground arith

used-get :
    (t : Devices) (k : ℕ) → k < 1024 → is_free t k ≡ false → get_device_by_id t (pos k) ≢ none
used-get t k lt h e = used_some t k h (sym (by_id t k lt) ∙ e)

-- A write to a slot of the table and a read of any.
write-get :
    (t : Devices) (i k : ℕ) (d : Option ℕ)
    → i < length t.table
    → k < 1024
    → get_device_by_id (write_slot t (pos i) d) (pos k)
      ≡ (if i == k then d else get_device_by_id t (pos k))
unfolding get_device_by_id check_id read_slot write_slot
write-get t i k d lt kt = ground (arith, get_or-set t.table i k d none lt)

-- No device has an id beyond the table.
beyond : (t : Devices) (k : ℕ) → 1024 ≤ k → get_device_by_id t (pos k) ≡ none
unfolding get_device_by_id check_id
beyond t k h = ground arith

write-get_other :
    (t : Devices) (i k : ℕ) (d : Option ℕ)
    → i < length t.table
    → k ≢ i
    → get_device_by_id (write_slot t (pos i) d) (pos k) ≡ get_device_by_id t (pos k)
write-get_other t i k d lt ne = elim (dec_lt k 1024) [
  | yes near ↦ write-get t i k d lt near ∙ rw (neq) refl
  | no far ↦ beyond (write_slot t (pos i) d) k (omega arith) ∙ sym (beyond t k (omega arith))
]
  where
    neq : (i == k) ≡ false
    neq = ground arith

length-write :
    (t : Devices) (i : ℕ) (d : Option ℕ) → length (write_slot t (pos i) d).table ≡ length t.table
unfolding write_slot
length-write t i d = length-set t.table i d

get_full :
    (t : Devices) (d : ℕ)
    → first_from (is_free t) 1 1023 ≡ 1024
    → ((get_device_id t (some d)).0 ≡ negsuc 0)
      × ((get_device_id t (some d)).1.table ≡ t.table)
      × (get_device_by_id (get_device_id t (some d)).1 (negsuc 0) ≡ some d)
unfolding get_device_id find_next_device_id write_slot get_device_by_id check_id read_slot
get_full t d all = rw all (refl, refl, refl)

get_found :
    (t : Devices) (d : ℕ)
    → first_from (is_free t) 1 1023 < 1024
    → get_device_id t (some d) ≡ (
      pos (first_from (is_free t) 1 1023),
      write_slot t (pos (first_from (is_free t) 1 1023)) (some d),
    )
unfolding get_device_id find_next_device_id
get_found t d inside = ground arith

-- In the table of 1024 slots, a device gets the lowest free id from 1 on, is found under it, and
-- every other id keeps its device; or all ids from 1 on are in use, -1 comes back, the table is
-- unchanged, and the device has been written into the word before it, where `get_device_by_id`
-- finds it under the id -1.
pub get_device_id-Assigned :
    (t : Devices) (d : ℕ)
    → length t.table ≡ 1024
    → ((i : ℕ) × (t' : Devices) × (get_device_id t (some d) ≡ (pos i, t')) × Assigned t d i t')
      ⊎ (IsFull t
          × ((get_device_id t (some d)).0 ≡ negsuc 0)
          × ((get_device_id t (some d)).1.table ≡ t.table)
          × (get_device_by_id (get_device_id t (some d)).1 (negsuc 0) ≡ some d))
get_device_id-Assigned t d len = found (first_from_lem (is_free t) 1 1023)
  where
    r : ℕ
    r = first_from (is_free t) 1 1023

    found :
        StopsAt (is_free t) 1 1023 r
        → ((i : ℕ) × (t' : Devices) × (get_device_id t (some d) ≡ (pos i, t')) × Assigned t d i t')
          ⊎ (IsFull t
              × ((get_device_id t (some d)).0 ≡ negsuc 0)
              × ((get_device_id t (some d)).1.table ≡ t.table)
              × (get_device_by_id (get_device_id t (some d)).1 (negsuc 0) ≡ some d))
    found (low, used, inl all) =
        let (minus, same, wrong) = get_full t d all in
        inr ((λ k lo hi. used-get t k hi (used k lo (omega arith))), minus, same, wrong)
    found (low, used, inr (inside, free)) = inl (
      r,
      write_slot t (pos r) (some d),
      get_found t d inside,
      record {
        positive = low;
        in_range = inside;
        was_free = by_id t r inside ∙ free_none t r free;
        lowest = λ k lo hi. used-get t k (omega arith) (used k lo hi);
        found = write-get t r r (some d) (omega arith) inside ∙ ground arith;
        others = λ k ne. write-get_other t r k (some d) (omega arith) ne;
        size = length-write t r (some d);
      },
    )

free_near : (t : Devices) (i : ℕ) → i < 1024 → free_device_id t (pos i) ≡ write_slot t (pos i) none
unfolding free_device_id check_id
free_near t i h = ground arith

free_far : (t : Devices) (i : ℕ) → 1024 ≤ i → free_device_id t (pos i) ≡ t
unfolding free_device_id check_id
free_far t i h = ground arith

-- In the table of 1024 slots, a freed id has no device, and every other id keeps its device. An id
-- beyond the table changes nothing.
pub free_device_id-get :
    (t : Devices) (i k : ℕ)
    → length t.table ≡ 1024
    → get_device_by_id (free_device_id t (pos i)) (pos k)
      ≡ (if i == k then none else get_device_by_id t (pos k))
free_device_id-get t i k len = elim (dec_lt i 1024) [
  | yes near ↦ elim (dec_lt k 1024) [
    | yes inside ↦
        ap (λ u. get_device_by_id u (pos k)) (free_near t i near)
        ∙ write-get t i k none (omega arith) inside
    | no far ↦
        beyond (free_device_id t (pos i)) k (omega arith)
        ∙ sym (ground (arith, beyond t k (omega arith)))
  ]
  | no far ↦
      ap (λ u. get_device_by_id u (pos k)) (free_far t i (omega arith)) ∙ ground (arith, beyond t k)
]
