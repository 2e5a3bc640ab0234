-- ===== src/Device/York/Table.antt =====
-- The table of objects of york.c, and the text of a value.
use rs.Prelude.{
  ℕ, zero, suc, ◌+◌, ◌/◌, ◌%◌, List, [], ◌∷◌, ◌++◌, ℤ, pos, negsuc, get_or, ltb, if◌then◌else◌,
}

-- A row of the table: the kind and the number of an object, its property, the priority of the
-- write, the index in an array, the type of the value, and the value.
pub record Object : Type 0 where
  pub kind : ℕ
  pub instance : ℕ
  pub property : ℕ
  pub priority : ℕ
  pub index : ℤ
  pub value_type : ℕ
  pub value : ℕ

-- A row as it is written in the table.
abbrev pub row : ℕ → ℕ → ℕ → ℕ → ℤ → ℕ → ℕ → Object
row k i p r x t v = record {
  kind = k;
  instance = i;
  property = p;
  priority = r;
  index = x;
  value_type = t;
  value = v;
}

-- The rows 0 to 14 set a temperature, 15 the humidity.
abbrev pub temperature_rows : List Object
temperature_rows =
    row 2 0 85 16 (negsuc 0) 4 18
    ∷ row 2 0 85 16 (negsuc 0) 4 19
    ∷ row 2 0 85 16 (negsuc 0) 4 20
    ∷ row 2 0 85 16 (negsuc 0) 4 21
    ∷ row 2 0 85 16 (negsuc 0) 4 22
    ∷ row 2 0 85 16 (negsuc 0) 4 23
    ∷ row 2 0 85 16 (negsuc 0) 4 24
    ∷ row 2 0 85 16 (negsuc 0) 4 25
    ∷ row 2 0 85 16 (negsuc 0) 4 26
    ∷ row 2 0 85 16 (negsuc 0) 4 27
    ∷ row 2 0 85 16 (negsuc 0) 4 28
    ∷ row 2 0 85 16 (negsuc 0) 4 29
    ∷ row 2 0 85 16 (negsuc 0) 4 30
    ∷ row 2 0 85 16 (negsuc 0) 4 31
    ∷ row 2 0 85 16 (negsuc 0) 4 32
    ∷ row 2 1 85 16 (negsuc 0) 4 60
    ∷ []

-- The rows 16 to 30: swing, fan, mode and switch.
abbrev pub state_rows : List Object
state_rows =
    row 14 2 85 16 (negsuc 0) 2 0
    ∷ row 14 2 85 16 (negsuc 0) 2 1
    ∷ row 14 2 85 16 (negsuc 0) 2 2
    ∷ row 14 2 85 16 (negsuc 0) 2 3
    ∷ row 14 1 85 16 (negsuc 0) 2 0
    ∷ row 14 1 85 16 (negsuc 0) 2 1
    ∷ row 14 1 85 16 (negsuc 0) 2 3
    ∷ row 14 1 85 16 (negsuc 0) 2 2
    ∷ row 14 0 85 16 (negsuc 0) 2 0
    ∷ row 14 0 85 16 (negsuc 0) 2 1
    ∷ row 14 0 85 16 (negsuc 0) 2 2
    ∷ row 14 0 85 16 (negsuc 0) 2 3
    ∷ row 14 0 85 16 (negsuc 0) 2 4
    ∷ row 5 0 85 16 (negsuc 0) 9 0
    ∷ row 5 0 85 16 (negsuc 0) 9 1
    ∷ []

-- The rows from 31 on: the binary values 1 to 12, yes and no.
abbrev pub option_rows : List Object
option_rows =
    row 5 1 85 16 (negsuc 0) 9 1
    ∷ row 5 1 85 16 (negsuc 0) 9 0
    ∷ row 5 2 85 16 (negsuc 0) 9 1
    ∷ row 5 2 85 16 (negsuc 0) 9 0
    ∷ row 5 3 85 16 (negsuc 0) 9 1
    ∷ row 5 3 85 16 (negsuc 0) 9 0
    ∷ row 5 4 85 16 (negsuc 0) 9 1
    ∷ row 5 4 85 16 (negsuc 0) 9 0
    ∷ row 5 5 85 16 (negsuc 0) 9 1
    ∷ row 5 5 85 16 (negsuc 0) 9 0
    ∷ row 5 6 85 16 (negsuc 0) 9 1
    ∷ row 5 6 85 16 (negsuc 0) 9 0
    ∷ row 5 7 85 16 (negsuc 0) 9 1
    ∷ row 5 7 85 16 (negsuc 0) 9 0
    ∷ row 5 8 85 16 (negsuc 0) 9 1
    ∷ row 5 8 85 16 (negsuc 0) 9 0
    ∷ row 5 9 85 16 (negsuc 0) 9 1
    ∷ row 5 9 85 16 (negsuc 0) 9 0
    ∷ row 5 10 85 16 (negsuc 0) 9 1
    ∷ row 5 10 85 16 (negsuc 0) 9 0
    ∷ row 5 11 85 16 (negsuc 0) 9 1
    ∷ row 5 11 85 16 (negsuc 0) 9 0
    ∷ row 5 12 85 16 (negsuc 0) 9 1
    ∷ row 5 12 85 16 (negsuc 0) 9 0
    ∷ []

abbrev pub york_air_condition_object : List Object
york_air_condition_object = temperature_rows ++ (state_rows ++ option_rows)

-- `york_air_condition_object[n]`; the switch below reads rows of the table only.
unfoldable pub object_at : ℕ → Object
object_at n = get_or york_air_condition_object n (row 0 0 0 0 (pos 0) 0 0)

-- The digits that `sprintf("%d", n)` writes, as characters; an `int` has ten at most.
unfoldable pub digits_of : ℕ → ℕ → List ℕ
digits_of zero n = []
digits_of (suc left) n =
    let high = digits_of left (n / 10) in
    if ltb n 10 then (48 + n) ∷ [] else high ++ (48 + n % 10) ∷ []

abbrev pub decimal : ℕ → List ℕ
decimal n = digits_of 10 n
