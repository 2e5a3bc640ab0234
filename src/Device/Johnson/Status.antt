-- ===== src/Device/Johnson/Status.antt =====
-- What the Johnson Controls driver sends of a unit's status, and what it keeps.
use rs.Prelude.{
  ◌*◌, ◌/◌, ◌%◌, ◌^◌, ◌+◌, ◌==◌, if◌then◌else◌, ℕ, ◌<◌, ◌≡◌, ◌≢◌, List, ℤ, pos, bit_or, get_or,
}
use rs.Device.Hitachi.{write_multiple_registers}
use rs.Device.Johnson.Wish.{Wish, masks}
use rs.Device.Johnson.{WordPort, Indoor, Change, into_first, into_second, unknown}

-- The status words of a unit after the bits of a method.
abbrev pub first_after : Change → ℕ → ℕ
first_after (into_first bits) s = bit_or s bits
first_after (into_second bits) s = s
first_after unknown s = s

abbrev pub second_after : Change → ℕ → ℕ
second_after (into_first bits) s = s
second_after (into_second bits) s = bit_or s bits
second_after unknown s = s

-- A write to the box: six registers from 3000 on, the last two with the unit's status, and the
-- table that the driver keeps.
pub record Sent (t : Indoor) (addr : ℕ) (c : Change) (r : ℤ × WordPort × Indoor) : Type 0 where
  pub count : r.0 ≡ pos 6
  pub code : r.1.code ≡ write_multiple_registers
  pub slave : r.1.device_addr ≡ 2
  pub start : r.1.register_addr ≡ 3000
  pub first_word : get_or r.1.value 4 0 ≡ first_after c (get_or t.first addr 0)
  pub second_word : get_or r.1.value 5 0 ≡ second_after c (get_or t.second addr 0)
  pub kept :
      (get_or r.2.first addr 0 ≡ get_or r.1.value 4 0)
      × (get_or r.2.second addr 0 ≡ get_or r.1.value 5 0)
  pub others :
      (j : ℕ)
      → j ≢ addr
      → (get_or r.2.first j 0 ≡ get_or t.first j 0) × (get_or r.2.second j 0 ≡ get_or t.second j 0)

-- The words that select a unit: the one of its group of 16, counted from the last, shifted to the
-- unit's place in it, and the others 0.
abbrev pub unit_word : ℕ → List ℕ → ℕ → ℕ
unit_word addr value k =
    if k + addr / 16 == 3 then get_or value k 0 * 2 ^ (addr % 16) % 2 ^ 16 else 0

-- What a wish comes to on the line and in the driver's table.
pub record Told (t : Indoor) (h : WordPort) (w : Wish) (r : ℤ × WordPort × Indoor) : Type 0 where
  pub count : r.0 ≡ pos 6
  pub code : r.1.code ≡ write_multiple_registers
  pub slave : r.1.device_addr ≡ 2
  pub start : r.1.register_addr ≡ 3000
  pub unit : (k : ℕ) → k < 4 → get_or r.1.value k 0 ≡ unit_word h.device_addr h.value k
  pub first_word : get_or r.1.value 4 0 ≡ bit_or (get_or t.first h.device_addr 0) (masks w).0
  pub second_word : get_or r.1.value 5 0 ≡ bit_or (get_or t.second h.device_addr 0) (masks w).1
  pub kept :
      (get_or r.2.first h.device_addr 0 ≡ get_or r.1.value 4 0)
      × (get_or r.2.second h.device_addr 0 ≡ get_or r.1.value 5 0)
  pub others :
      (j : ℕ)
      → j ≢ h.device_addr
      → (get_or r.2.first j 0 ≡ get_or t.first j 0) × (get_or r.2.second j 0 ≡ get_or t.second j 0)
