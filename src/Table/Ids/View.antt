-- ===== src/Table/Ids/View.antt =====
-- The id table seen as a finite map from ids to entries.
use native.Mathlib.Decide.{ℕ_discrete}
use rs.Prelude.{
  ℕ, ◌*◌, ◌≤◌, ◌<◌, ◌≡◌, ◌≢◌, subst, sym, ap, ◌∙◌, true, false, Option, none, some, List, arith,
  is_nonzero, length, ◌==◌, if◌then◌else◌,
}
use rs.Table.Bytes.{
  store_bytes, load_bytes, load-store_outside, load-store_self, slots_apart, slot_room,
}
use rs.Table.Bitmap.{check_bitmap}
use rs.Table.Bitmap.Update.{IsSized}
use rs.Table.Ids.{IdTable}

-- The entry of an id, `none` for an id that is not in use.
unfoldable pub entry : IdTable → ℕ → Option (List ℕ)
entry t id =
    if is_nonzero (check_bitmap t.map id)
    then some (load_bytes t.table (id * t.element_size) t.element_size)
    else none

-- The storage and the bitmap have room for `limit` entries.
pub record IsValid (t : IdTable) : Type 0 where
  pub bits : IsSized t.map t.limit
  pub storage : t.limit * t.element_size ≤ length t.table

-- What a write of one entry leaves: that entry, and every other one.
pub load-store_entry :
    (buf : List ℕ) (size count i j : ℕ) (d : List ℕ)
    → count * size ≤ length buf
    → i < count
    → length d ≡ size
    → load_bytes (store_bytes buf (i * size) d) (j * size) size
      ≡ (if i == j then d else load_bytes buf (j * size) size)
load-store_entry buf size count i j d storage hi len = elim (ℕ_discrete i j) [
  | yes same ↦ rw (beq_same same) (
      subst (λ k. load_bytes (store_bytes buf (i * size) d) (k * size) size ≡ d) same
        (ap (load_bytes (store_bytes buf (i * size) d) (i * size)) (sym len)
          ∙ load-store_self buf (i * size) d (omega (arith, slot_room size count i hi))))
  | no other ↦ rw (beq_ne other) (
      load-store_outside buf (i * size) d (j * size) size
        (omega (arith, slots_apart size i j other)))
]
  where
    beq_same : i ≡ j → (i == j) ≡ true
    beq_same same = ground arith

    beq_ne : i ≢ j → (i == j) ≡ false
    beq_ne ne = ground arith
