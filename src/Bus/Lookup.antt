-- ===== src/Bus/Lookup.antt =====
-- Walks over a list of nodes, and the lookup of a device by its name.
use rs.Prelude.{
  ℕ, ◌≡◌, ◌⊎◌, inl, inr, refl, sym, ap, ◌∙◌, Bool, true, false, none, some, List, [], ◌∷◌, ◌++◌,
  Bool-cases, ◌==◌, if◌then◌else◌, arith,
}
use mathlib.Core.Logic.{⊎_elim}
use mathlib.Core.List.{Memᴰ, append_assoc}
use mathlib.Core.List.Memᴰ
use rs.Bus.{
  BusType, put, wlist_del, wlist_iter_init_node, find, exit_devices, bus_find_device,
  bus_find_device_by_name,
}

-- No node of a list passes a test.
abbrev pub NoneOf : (ℕ → Bool) → List ℕ → Type 0
NoneOf p xs = (x : ℕ) → Memᴰ x xs → p x ≡ false

NoneOf-cons : (p : ℕ → Bool) (x : ℕ) (l : List ℕ) → p x ≡ false → NoneOf p l → NoneOf p (x ∷ l)
NoneOf-cons p x l misses others y m =
    ⊎_elim (λ at. ap p (Memᴰ.eq_of_singleton at) ∙ misses) (others y) (Memᴰ.append_cases (x ∷ []) m)

pub find_at :
    (p : ℕ → Bool) (xs rest : List ℕ) (d : ℕ)
    → NoneOf p xs
    → p d ≡ true
    → find p (xs ++ d ∷ rest) ≡ some d
unfolding find
find_at p [] rest d others here = ground arith
find_at p (x ∷ xs) rest d others here =
    ground
      (arith, others x (Memᴰ.head refl), find_at p xs rest d (λ y m. others y (Memᴰ.tail m)) here)

pub find-none : (p : ℕ → Bool) (xs : List ℕ) → NoneOf p xs → find p xs ≡ none
unfolding find
find-none p [] others = refl
find-none p (x ∷ xs) others =
    ground (arith, others x (Memᴰ.head refl), find-none p xs (λ y m. others y (Memᴰ.tail m)))

pub wlist_del-nil : (n : ℕ) → wlist_del n [] ≡ []
unfolding wlist_del
wlist_del-nil n = refl

pub wlist_del-cons :
    (n x : ℕ) (xs : List ℕ) → wlist_del n (x ∷ xs) ≡ (if x == n then xs else x ∷ wlist_del n xs)
unfolding wlist_del
wlist_del-cons n x xs = refl

pub wlist_del-first : (n : ℕ) (xs : List ℕ) → wlist_del n (n ∷ xs) ≡ xs
unfolding wlist_del
wlist_del-first n xs = ground arith

pub wlist_del_at :
    (xs rest : List ℕ) (d : ℕ) → NoneOf (λ x. x == d) xs → wlist_del d (xs ++ d ∷ rest) ≡ xs ++ rest
unfolding wlist_del
wlist_del_at [] rest d others = ground arith
wlist_del_at (x ∷ xs) rest d others =
    ground
      (arith, others x (Memᴰ.head refl), wlist_del_at xs rest d (λ y m. others y (Memᴰ.tail m)))

equal : (a b : ℕ) → (a == b) ≡ true → a ≡ b
equal a b e = ground arith

-- A node that passes a test is none of those that do not.
pub NoneOf-ne :
    (p : ℕ → Bool) (xs : List ℕ) (d : ℕ) → NoneOf p xs → p d ≡ true → NoneOf (λ x. x == d) xs
NoneOf-ne p xs d others here x m = elim (Bool-cases (x == d)) [
  | inr other ↦ other
  | inl same ↦ ground (arith, ap p (equal x d same), others x m)
]

-- A store to one object that keeps a field keeps that field of all.
pub put_field :
    {A B : Type 0}
    → (g : A → B) (f : ℕ → A) (i : ℕ) (a : A) → g a ≡ g (f i)
    → (x : ℕ) → g (put f i a x) ≡ g (f x)
put_field g f i a same x = go (x == i) refl
  where
    go : (b : Bool) → (x == i) ≡ b → g (if b then a else f x) ≡ g (f x)
    go true e = same ∙ ap (λ k. g (f k)) (sym (equal x i e))
    go false e = refl

-- The test of the lookup.
abbrev pub has_name : BusType → ℕ → ℕ → Bool
has_name bus name d = name == (bus.device d).bus_id

lookup-some :
    (bus : BusType) (d name : ℕ)
    → find (has_name bus name) bus.wlist_devices ≡ some d
    → bus_find_device_by_name none name bus ≡ (
      some d,
      record bus {
        wlist_devices = wlist_del d bus.wlist_devices;
        device = put bus.device d (record (bus.device d) { on_bus = false });
      },
    )
unfolding bus_find_device_by_name bus_find_device wlist_iter_init_node exit_devices
lookup-some bus d name e = ap (λ at. (at, exit_devices at bus)) e

lookup-none :
    (bus : BusType) (name : ℕ)
    → find (has_name bus name) bus.wlist_devices ≡ none
    → bus_find_device_by_name none name bus ≡ (none, bus)
unfolding bus_find_device_by_name bus_find_device wlist_iter_init_node exit_devices
lookup-none bus name e = ap (λ at. (at, exit_devices at bus)) e

-- The first node of a list that passes a test, or none does.
pub record FirstOf (p : ℕ → Bool) (l : List ℕ) (e : ℕ) : Type 0 where
  pub before : List ℕ
  pub after : List ℕ
  pub split : l ≡ before ++ e ∷ after
  pub others : NoneOf p before
  pub passes : p e ≡ true

first_of : (p : ℕ → Bool) (l : List ℕ) → NoneOf p l ⊎ ((e : ℕ) × FirstOf p l e)
first_of p [] = inl (λ x m. elim m [ ])
first_of p (x ∷ l) = elim (Bool-cases (p x)) [
  | inl here ↦ inr (
    x,
    record { before = []; after = l; split = refl; others = λ y m. elim m [ ]; passes = here },
  )
  | inr misses ↦ elim (first_of p l) [
    | inl others ↦ inl (NoneOf-cons p x l misses others)
    | inr (e, f) ↦ inr (
      e,
      record {
        before = x ∷ f.before;
        after = f.after;
        split = ap (λ q. x ∷ q) f.split;
        others = NoneOf-cons p x f.before misses f.others;
        passes = f.passes;
      },
    )
  ]
]

-- A lookup finds the first device of the bus's list that has the name, whatever follows it, and takes
-- it off the list; so that a second lookup finds none, when no device behind has the name, or the
-- first of those behind that have it.
pub bus_find_device_by_name-once :
    (bus : BusType) (xs rest : List ℕ) (d name : ℕ)
    → bus.wlist_devices ≡ xs ++ d ∷ rest
    → NoneOf (has_name bus name) xs
    → name ≡ (bus.device d).bus_id
    → (bus' : BusType) × (bus_find_device_by_name none name bus ≡ (some d, bus'))
      × (bus'.wlist_devices ≡ xs ++ rest)
      × ((NoneOf (has_name bus name) rest × (bus_find_device_by_name none name bus' ≡ (none, bus')))
          ⊎ ((e : ℕ) × FirstOf (has_name bus name) rest e
              × ((bus_find_device_by_name none name bus').0 ≡ some e)))
bus_find_device_by_name-once bus xs rest d name e before here =
    let bus' : BusType = record bus {
      wlist_devices = wlist_del d bus.wlist_devices;
      device = put bus.device d (record (bus.device d) { on_bus = false });
    } in
    let left : bus'.wlist_devices ≡ xs ++ rest =
      ap (wlist_del d) e
      ∙ wlist_del_at xs rest d (NoneOf-ne (has_name bus name) xs d before (ground arith)) in
    let named : (x : ℕ) → has_name bus' name x ≡ has_name bus name x = λ x.
      ap (λ n. name == n)
        (put_field (λ v. v.bus_id) bus.device d (record (bus.device d) { on_bus = false }) refl
          x) in
    let still : (ys : List ℕ)
        → NoneOf (has_name bus name) ys
        → NoneOf (has_name bus' name) (xs ++ ys) =
      λ ys others x m. named x ∙ ⊎_elim (before x) (others x) (Memᴰ.append_cases xs m) in
    (
      bus',
      lookup-some bus d name (
          ap (find (has_name bus name)) e
          ∙ find_at (has_name bus name) xs rest d before (ground arith)),
      left,
      elim (first_of (has_name bus name) rest) [
        | inl after ↦ inl (
          after,
          lookup-none bus' name (
              ap (find (has_name bus' name)) left
              ∙ find-none (has_name bus' name) (xs ++ rest) (still rest after)),
        )
        | inr (n, f) ↦ inr (
          n,
          f,
          ap (λ r. r.0)
              (lookup-some bus' n name (
                ap (find (has_name bus' name))
                  (left ∙ ap (λ l. xs ++ l) f.split ∙ sym (append_assoc xs f.before (n ∷ f.after)))
                ∙ find_at (has_name bus' name) (xs ++ f.before) f.after n (still f.before f.others)
                    (named n ∙ f.passes))),
        )
      ],
    )
