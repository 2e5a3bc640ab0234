-- ===== src/Table/Ids.antt =====
-- sdk/module/bitmap/it_table.c: entries of one size, with a bitmap of the ids in use. The copies into
-- and out of the storage are `store_bytes` and `load_bytes`.
pub mod View
pub mod Laws
mod Tests
use rs.Prelude.{
  ℕ, ◌*◌, ◌≡◌, Bool, true, false, ◌&&◌, not, Option, none, some, List, [], ◌∷◌, ◌++◌, ℤ, pos,
  neg_eperm, neg_einval, is_nonzero, take, replicate, ◌==◌, if◌then◌else◌,
}
use rs.Table.Bytes.{store_bytes, load_bytes}
use rs.Table.Bitmap.{
  Bitmap, alloc_bitmap, check_bitmap, set_bitmap, unset_bitmap, find_next_zero_bit,
}

-- `struct table`
pub record IdTable : Type 0 where
  pub map : Bitmap
  pub table : List ℕ
  pub limit : ℕ
  pub element_size : ℕ

-- `id_table_init(data_size, deep)`; the flags tell which of its three allocations succeed.
pub id_table_init : Bool → Bool → Bool → ℕ → ℕ → Option IdTable
id_table_init ok_struct ok_table ok_map data_size deep =
    if data_size == 0 && deep == 0
    then none
    else if not (ok_struct && ok_table)
    then none
    else elim (alloc_bitmap ok_map deep) [
      | none ↦ none
      | some bitmap ↦ some (record {
        map = some bitmap;
        table = replicate (deep * data_size) 0;
        limit = deep;
        element_size = data_size;
      })
    ]

pub get_unused_id : IdTable → ℤ
get_unused_id t = find_next_zero_bit t.map t.limit

pub id_table_set : Option IdTable → ℕ → Option (List ℕ) → ℤ × Option IdTable
id_table_set none id d = (neg_einval, none)
id_table_set (some t) id none = (neg_einval, some t)
id_table_set (some t) id (some d) =
    if not (is_nonzero (check_bitmap t.map id)) then (neg_eperm, some t) else (
      pos 0,
      some (record t { table = store_bytes t.table (id * t.element_size) (take t.element_size d) }),
    )

-- The bytes copied out; the flag tells that `out` is not NULL.
pub id_table_get : Option IdTable → Bool → ℕ → ℤ × Option (List ℕ)
id_table_get none out id = (neg_einval, none)
id_table_get (some t) out id =
    if not out
    then (neg_einval, none)
    else if not (is_nonzero (check_bitmap t.map id))
    then (neg_eperm, none)
    else (pos 0, some (load_bytes t.table (id * t.element_size) t.element_size))

pub id_table_uninstall : Option IdTable → ℕ → Option IdTable
id_table_uninstall none id = none
id_table_uninstall (some t) id =
    if not (is_nonzero (check_bitmap t.map id))
    then some t
    else some (record t {
      table = store_bytes t.table (id * t.element_size) (replicate t.element_size 0);
      map = (unset_bitmap t.map id).1;
    })

-- `if (data) memcpy(...)`
pub copy_in : IdTable → ℕ → Option (List ℕ) → List ℕ
copy_in t id none = t.table
copy_in t id (some d) = store_bytes t.table (id * t.element_size) (take t.element_size d)

pub id_table_install : Option IdTable → ℕ → Option (List ℕ) → ℤ × Option IdTable
id_table_install none id d = (neg_einval, none)
id_table_install (some t) id d =
    if is_nonzero (check_bitmap t.map id)
    then (neg_eperm, some t)
    else let (error, bitmap) = set_bitmap t.map id in
      (error, some (record t { table = copy_in t id d; map = bitmap }))

-- The three blocks of a table.
pub data Block : Type 0 where
  map_block : Block
  table_block : Block
  struct_block : Block

-- `free_bitmap(bitmap)`: the blocks that it frees.
pub free_bitmap : Bitmap → List Block
free_bitmap none = []
free_bitmap (some bits) = map_block ∷ []

-- `id_table_release(w)`: the blocks that it frees, in order.
pub id_table_release : Option IdTable → List Block
id_table_release none = []
id_table_release (some t) = free_bitmap t.map ++ (free_bitmap t.map ++ (struct_block ∷ []))
