-- ===== src/Table/Bytes.antt =====
-- The bytes of an entry, copied into storage and out of it, and the slots of the entries.
use rs.Prelude.{
  ℕ, zero, suc, ◌+◌, ◌*◌, ◌≢◌, inl, inr, ◌≤◌, ◌<◌, ◌≡◌, ◌⊎◌, refl, ap, ap₂, ◌∙◌, List, [], ◌∷◌,
  arith, length, get_or, set, length-set, get_or-set_self, get_or-set_ne,
}
use native.Mathlib.Decide.{dec_lt}

-- Copies in and out from the index `at`; a byte outside the storage reads 0 and is not written.
unfoldable pub store_bytes : List ℕ → ℕ → List ℕ → List ℕ
store_bytes buf at [] = buf
store_bytes buf at (d ∷ ds) = store_bytes (set buf at d) (at + 1) ds

unfoldable pub load_bytes : List ℕ → ℕ → ℕ → List ℕ
load_bytes buf at zero = []
load_bytes buf at (suc n) = get_or buf at 0 ∷ load_bytes buf (at + 1) n

-- The slots lie inside the storage, and apart.
pub slot_room : (size count i : ℕ) → i < count → i * size + size ≤ count * size
slot_room size count i h = grind arith

pub slots_apart :
    (size i j : ℕ) → i ≢ j → (i * size + size ≤ j * size) ⊎ (j * size + size ≤ i * size)
slots_apart size i j ne = elim (dec_lt i j) [
  | yes p ↦ inl (slot_room size j i p)
  | no p ↦ inr (slot_room size i j (omega arith))
]

pub length-store_bytes :
    (buf : List ℕ) (at : ℕ) (ds : List ℕ) → length (store_bytes buf at ds) ≡ length buf
unfolding store_bytes
length-store_bytes buf at [] = refl
length-store_bytes buf at (d ∷ ds) =
    length-store_bytes (set buf at d) (at + 1) ds ∙ length-set buf at d

pub length-load_bytes : (buf : List ℕ) (at n : ℕ) → length (load_bytes buf at n) ≡ n
unfolding load_bytes
length-load_bytes buf at zero = refl
length-load_bytes buf at (suc n) = ap suc (length-load_bytes buf (at + 1) n)

get_or-store_outside :
    (buf : List ℕ) (at : ℕ) (ds : List ℕ) (i : ℕ)
    → (i < at) ⊎ (at + length ds ≤ i)
    → get_or (store_bytes buf at ds) i 0 ≡ get_or buf i 0
unfolding store_bytes
get_or-store_outside buf at [] i h = refl
get_or-store_outside buf at (d ∷ ds) i h =
    get_or-store_outside (set buf at d) (at + 1) ds i (omega arith)
    ∙ get_or-set_ne buf at i d 0 (omega arith)

pub load-store_outside :
    (buf : List ℕ) (at : ℕ) (ds : List ℕ) (i n : ℕ)
    → (i + n ≤ at) ⊎ (at + length ds ≤ i)
    → load_bytes (store_bytes buf at ds) i n ≡ load_bytes buf i n
unfolding load_bytes
load-store_outside buf at ds i zero h = refl
load-store_outside buf at ds i (suc n) h =
    ap₂ ◌∷◌ (get_or-store_outside buf at ds i (omega arith))
      (load-store_outside buf at ds (i + 1) n (omega arith))

pub load-store_self :
    (buf : List ℕ) (at : ℕ) (ds : List ℕ)
    → at + length ds ≤ length buf
    → load_bytes (store_bytes buf at ds) at (length ds) ≡ ds
unfolding load_bytes store_bytes
load-store_self buf at [] h = refl
load-store_self buf at (d ∷ ds) h =
    ap₂ ◌∷◌
      (get_or-store_outside (set buf at d) (at + 1) ds at (omega arith)
        ∙ get_or-set_self buf at d 0 (omega arith))
      (load-store_self (set buf at d) (at + 1) ds (omega (arith, length-set buf at d)))
