-- ===== src/Table/Ids/Tests.antt =====
-- A table of three entries of two bytes; the id 1 is in use.
use rs.Prelude.{ℕ, zero, suc, ◌<◌, ◌≡◌, refl, none, some, [], ◌∷◌, pos, arith, get_or}
use rs.Table.Bytes.{load_bytes}
use rs.Table.Bitmap.{check_bitmap, test_bit}
use rs.Table.Ids.{IdTable, id_table_install}
use rs.Table.Ids.View.{entry, IsValid}
use rs.Table.Ids.Laws.{Updates, id_table_install-Updates}

abbrev table : IdTable
table = record {
  map = some (2 ∷ []);
  table = 0 ∷ 0 ∷ 7 ∷ 8 ∷ 0 ∷ 0 ∷ [];
  limit = 3;
  element_size = 2;
}

small : (k : ℕ) → get_or (2 ∷ []) k 0 < 256
small zero = omega arith
small (suc k) = omega arith

table-IsValid : IsValid table
table-IsValid = record { bits = (omega arith, small); storage = omega arith }

entry_1 : entry table 1 ≡ some (7 ∷ 8 ∷ [])
unfolding entry check_bitmap test_bit load_bytes
entry_1 = refl

entry_2 : entry table 2 ≡ none
unfolding entry check_bitmap test_bit
entry_2 = refl

id_table_install-Updates_example :
    (t' : IdTable) × (id_table_install (some table) 2 (some (5 ∷ 6 ∷ [])) ≡ (pos 0, some t'))
    × Updates table 2 (some (5 ∷ 6 ∷ [])) t'
id_table_install-Updates_example =
    id_table_install-Updates table 2 (5 ∷ 6 ∷ []) table-IsValid (omega arith) refl entry_2
