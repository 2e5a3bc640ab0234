-- ===== src/Table/Ids/Laws.antt =====
-- What each call on an id table does to the entries.
use native.Mathlib.Decide.{ℕ_discrete}
use rs.Prelude.{
  ℕ, zero, suc, ◌+◌, ◌*◌, ◌/◌, ◌%◌, ◌<◌, ◌≡◌, ◌≢◌, refl, subst, sym, ap, ◌∙◌, inl, inr, Bool, true,
  Option, none, some, List, pos, neg_eperm, arith, is_nonzero, length, take, take_all, get_or,
  replicate, length-replicate, all_below, all_below_sound, ==_iff, ◌==◌, if◌then◌else◌, Bool-cases,
}
use rs.Table.Bytes.{store_bytes, load_bytes, length-store_bytes}
use rs.Table.Bitmap.{Bitmap, test_bit, alloc_bitmap, check_bitmap, set_bitmap, unset_bitmap}
use rs.Table.Bitmap.Update.{IsSized, set_bitmap-IsSized, unset_bitmap-IsSized}
use rs.Table.Ids.{
  IdTable, id_table_init, id_table_set, id_table_get, id_table_uninstall, copy_in, id_table_install,
}
use rs.Table.Ids.View.{entry, IsValid, load-store_entry}

-- The table after a call: valid, of the same shape, and with one entry changed to `e`.
pub record Updates (t : IdTable) (id : ℕ) (e : Option (List ℕ)) (t' : IdTable) : Type 0 where
  pub valid : IsValid t'
  pub same_limit : t'.limit ≡ t.limit
  pub same_size : t'.element_size ≡ t.element_size
  pub entries : (j : ℕ) → j < t.limit → entry t' j ≡ (if id == j then e else entry t j)

-- A read answers with the entry, -EPERM for an id that is not in use.
pub id_table_get-entry :
    (t : IdTable) (id : ℕ)
    → id_table_get (some t) true id
      ≡ (elim (entry t id) [ none ↦ (neg_eperm, none) | some d ↦ (pos 0, some d) ])
unfolding id_table_get entry
id_table_get-entry t id = ground arith

take_size : (t : IdTable) (d : List ℕ) → length d ≡ t.element_size → take t.element_size d ≡ d
take_size t d len = ap (λ n. take n d) (sym len) ∙ take_all d

-- The table with the bytes of one entry and the bitmap replaced.
stored : IdTable → ℕ → List ℕ → Bitmap → IdTable
stored t id d m = record t { table = store_bytes t.table (id * t.element_size) d; map = m }

entry-stored :
    (t : IdTable) (id : ℕ) (d : List ℕ) (m : Bitmap) (j : ℕ)
    → IsValid t
    → id < t.limit
    → length d ≡ t.element_size
    → entry (stored t id d m) j ≡ (
        if is_nonzero (check_bitmap m j)
        then some (if id == j then d else load_bytes t.table (j * t.element_size) t.element_size)
        else none)
unfolding entry stored
entry-stored t id d m j v lt len =
    rw (load-store_entry t.table t.element_size t.limit id j d v.storage lt len) refl

-- The change is as asked if the bits are.
stored-Updates :
    (t : IdTable) (id : ℕ) (d : List ℕ) (m : Bitmap) (e : Option (List ℕ))
    → IsValid t
    → id < t.limit
    → length d ≡ t.element_size
    → IsSized m t.limit
    → ((j : ℕ)
        → (if is_nonzero (check_bitmap m j)
            then some
                (if id == j then d else load_bytes t.table (j * t.element_size) t.element_size)
            else none)
          ≡ (if id == j then e else entry t j))
    → Updates t id e (stored t id d m)
unfolding stored
stored-Updates t id d m e v lt len sized same = record {
  valid = record {
    bits = sized;
    storage = rw (length-store_bytes t.table (id * t.element_size) d) v.storage;
  };
  same_limit = refl;
  same_size = refl;
  entries = λ j jlt. entry-stored t id d m j v lt len ∙ same j;
}

-- In a valid table, to install an entry of the element size under a free id below the limit
-- returns 0, makes that entry, leaves every other one, and keeps the table valid.
pub id_table_install-Updates :
    (t : IdTable) (id : ℕ) (d : List ℕ)
    → IsValid t
    → id < t.limit
    → length d ≡ t.element_size
    → entry t id ≡ none
    → (t' : IdTable) × (id_table_install (some t) id (some d) ≡ (pos 0, some t'))
      × Updates t id (some d) t'
unfolding id_table_install entry copy_in stored
id_table_install-Updates t id d v lt len free =
    let up = set_bitmap-IsSized t.map t.limit id v.bits lt in
    (
      stored t id d (set_bitmap t.map id).1,
      ground (arith, up.0, take_size t d len),
      stored-Updates t id d (set_bitmap t.map id).1 (some d) v lt len up.1
          (λ j. ground (arith, up.2 j)),
    )

-- In a valid table, to set the entry of an id in use below the limit to one of the element size
-- returns 0, replaces it, leaves every other one, and keeps the table valid.
pub id_table_set-Updates :
    (t : IdTable) (id : ℕ) (d : List ℕ)
    → IsValid t
    → id < t.limit
    → length d ≡ t.element_size
    → entry t id ≢ none
    → (t' : IdTable) × (id_table_set (some t) id (some d) ≡ (pos 0, some t'))
      × Updates t id (some d) t'
unfolding id_table_set entry stored
id_table_set-Updates t id d v lt len used = (
  stored t id d t.map,
  ground (arith, take_size t d len),
  stored-Updates t id d t.map (some d) v lt len v.bits (λ j. elim (ℕ_discrete id j) [
    | yes same ↦
        subst
          (λ k.
            (if is_nonzero (check_bitmap t.map k)
              then some
                  (if id == k then d else load_bytes t.table (k * t.element_size) t.element_size)
              else none)
            ≡ (if id == k then some d else entry t k))
          same (ground arith)
    | no other ↦ ground arith
  ]),
)

-- In a valid table, to uninstall an id below the limit frees it, whether it was in use or not,
-- leaves every other entry, and keeps the table valid.
pub id_table_uninstall-Updates :
    (t : IdTable) (id : ℕ)
    → IsValid t
    → id < t.limit
    → (t' : IdTable) × (id_table_uninstall (some t) id ≡ some t') × Updates t id none t'
unfolding id_table_uninstall entry stored
id_table_uninstall-Updates t id v lt = elim (Bool-cases (is_nonzero (check_bitmap t.map id))) [
  | inl used ↦
      let up = unset_bitmap-IsSized t.map t.limit id v.bits lt in
      let zeros = replicate t.element_size 0 in
      (
        stored t id zeros (unset_bitmap t.map id).1,
        ground (arith, used),
        stored-Updates t id zeros (unset_bitmap t.map id).1 none v lt
            (length-replicate t.element_size 0) up.1 (λ j. ground (arith, up.2 j)),
      )
  | inr free ↦ (
    t,
    ground arith,
    record {
      valid = v;
      same_limit = refl;
      same_size = refl;
      entries = λ j jlt. elim (ℕ_discrete id j) [
        | yes same ↦
            subst (λ k. entry t k ≡ (if id == k then none else entry t k)) same (ground arith)
        | no other ↦ ground arith
      ];
    },
  )
]

get_or-zeros : (n i : ℕ) → get_or (replicate n 0) i 0 ≡ zero
get_or-zeros zero i = refl
get_or-zeros (suc n) zero = refl
get_or-zeros (suc n) (suc i) = get_or-zeros n i

zero_byte : ℕ → Bool
zero_byte o = test_bit 0 o == 0

zero_bytes : all_below 8 zero_byte ≡ true
unfolding all_below zero_byte test_bit
zero_bytes = refl

test_bit-zero : (o : ℕ) → o < 8 → test_bit 0 o ≡ 0
unfolding zero_byte
test_bit-zero o h = (==_iff (test_bit 0 o) 0).0 (all_below_sound 8 zero_byte o zero_bytes h)

-- A new table, whose allocations succeed, is valid, and no id is in use. The entries have at least
-- one byte.
pub id_table_init-IsValid :
    (size deep : ℕ)
    → 0 < size
    → (t : IdTable) × (id_table_init true true true size deep ≡ some t)
      × IsValid t
      × ((j : ℕ) → entry t j ≡ none)
unfolding id_table_init alloc_bitmap entry check_bitmap
id_table_init-IsValid size deep pos_size = (
  record {
    map = some (replicate (deep / 8 + 1) 0);
    table = replicate (deep * size) 0;
    limit = deep;
    element_size = size;
  },
  ground arith,
  record {
    bits = (
      omega (arith, length-replicate {A = ℕ} (deep / 8 + 1) 0),
      λ k. omega (arith, get_or-zeros (deep / 8 + 1) k),
    );
    storage = omega (arith, length-replicate {A = ℕ} (deep * size) 0);
  },
  λ j. rw (get_or-zeros (deep / 8 + 1) (j / 8), test_bit-zero (j % 8) (omega arith)) refl,
)
