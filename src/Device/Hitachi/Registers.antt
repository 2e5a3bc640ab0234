-- ===== src/Device/Hitachi/Registers.antt =====
-- Which register of which air conditioner a method of the client sets, and to what.
use rs.Prelude.{
  ℕ, ◌+◌, ◌-◌, ◌*◌, ◌/◌, ◌%◌, ◌≤◌, ◌<◌, ◌≡◌, refl, ap, ◌∙◌, some, List, [], ◌∷◌, pos, arith, length,
  get_or, set, ◌==◌, if◌then◌else◌,
}
use rs.Device.Hitachi.{
  write_signle_register, ModbusPort, write, setting, apply, hitachi_vrv_manager_send_package_handle,
  hitachi_vrv_manager_get_device_info_send,
}

-- The air conditioner and the register of a register address of the box, and the word that is
-- written, high byte first.
abbrev pub unit_of : ModbusPort → ℕ
unit_of h = (h.register_addr - 4000) / 4

abbrev pub offset_of : ModbusPort → ℕ
offset_of h = (h.register_addr - 4000) % 4

abbrev pub word_of : ModbusPort → ℕ
word_of h = get_or h.buffer 0 0 * 256 + get_or h.buffer 1 0

-- A single write to the box, for one register of one unit.
pub record Writes (h : ModbusPort) (unit offset value : ℕ) : Type 0 where
  pub code : h.code ≡ write_signle_register
  pub slave : h.device_addr ≡ 2
  pub above : 4000 ≤ h.register_addr
  pub at_unit : unit_of h ≡ unit
  pub at_offset : offset_of h ≡ offset
  pub word : word_of h ≡ value

-- A setting of the switch is a small value in one of the four registers.
setting-small : (m o v : ℕ) → setting m ≡ write o v → (o < 4) × (v < 256)
unfolding setting
setting-small m o v e = ground arith

setting-temperature : (m : ℕ) → 18 ≤ m → m ≤ 30 → setting m ≡ write 1 (if m == 18 then 19 else m)
unfolding setting
setting-temperature m low high = ground arith

set-word :
    (buf : List ℕ) (v : ℕ)
    → 2 ≤ length buf
    → v < 65536
    → let buf' = set (set buf 0 (v / 256)) 1 (v % 256) in
      get_or buf' 0 0 * 256 + get_or buf' 1 0 ≡ v
set-word [] v room small = absurd (omega arith)
set-word (x ∷ []) v room small = absurd (omega arith)
set-word (x ∷ y ∷ buf) v room small = omega arith

send_apply :
    (h : ModbusPort)
    → h.device_addr ≤ 127
    → let r = apply (record h { code = write_signle_register }) (setting h.method) in
      hitachi_vrv_manager_send_package_handle (some h) ≡ (r.0, some r.1)
unfolding hitachi_vrv_manager_send_package_handle
send_apply h near = ground arith

apply-Writes :
    (h : ModbusPort) (o v : ℕ)
    → h.code ≡ write_signle_register
    → h.device_addr ≤ 127
    → 2 ≤ length h.buffer
    → o < 4
    → v < 256
    → (h' : ModbusPort) × (apply h (write o v) ≡ (pos 1, h')) × Writes h' h.device_addr o v
unfolding apply
apply-Writes h o v code near room ho hv = (
  _,
  refl,
  record {
    code = code;
    slave = refl;
    above = omega arith;
    at_unit = omega arith;
    at_offset = omega arith;
    word = set-word h.buffer v room (omega arith);
  },
)

-- A case of the switch that sets a value, for one of the 128 air conditioners and a buffer of two
-- bytes, leads to one single-register write to the box, of that value, into one of the four
-- registers of that air conditioner.
pub hitachi_vrv_manager_send_package_handle-Writes :
    (h : ModbusPort) {o v : ℕ}
    → h.device_addr ≤ 127
    → 2 ≤ length h.buffer
    → setting h.method ≡ write o v
    → (h' : ModbusPort) × (hitachi_vrv_manager_send_package_handle (some h) ≡ (pos 1, some h'))
      × Writes h' h.device_addr o v
      × (o < 4)
hitachi_vrv_manager_send_package_handle-Writes h {o} {v} near room e =
    let (ho, hv) = setting-small h.method o v e in
    let (h', made, writes) =
      apply-Writes (record h { code = write_signle_register }) o v refl near room ho hv in
    (
      h',
      send_apply h near
          ∙ ap (λ s. let r = apply (record h { code = write_signle_register }) s in (r.0, some r.1))
              e
          ∙ ap (λ r. (r.0, some r.1)) made,
      writes,
      ho,
    )

-- A method of a temperature from 18 to 30 degrees, for one of the 128 air conditioners and a
-- buffer of two bytes, sets the temperature register of that air conditioner to that temperature,
-- or to 19 for 18.
pub hitachi_vrv_manager_send_package_handle-temperature :
    (h : ModbusPort)
    → h.device_addr ≤ 127
    → 2 ≤ length h.buffer
    → 18 ≤ h.method
    → h.method ≤ 30
    → (h' : ModbusPort) × (hitachi_vrv_manager_send_package_handle (some h) ≡ (pos 1, some h'))
      × Writes h' h.device_addr 1 (if h.method == 18 then 19 else h.method)
hitachi_vrv_manager_send_package_handle-temperature h near room low high =
    let (h', sent, writes, small) =
      hitachi_vrv_manager_send_package_handle-Writes h near room
        (setting-temperature h.method low high) in
    (h', sent, writes)

-- A query reads six registers of the box, and the blocks of two different ones of the 128 air
-- conditioners lie apart.
pub hitachi_vrv_manager_get_device_info_send-apart :
    (g h : ModbusPort)
    → g.device_addr < h.device_addr
    → h.device_addr ≤ 127
    → (g' h' : ModbusPort) × (hitachi_vrv_manager_get_device_info_send (some g) ≡ (pos 6, some g'))
      × (hitachi_vrv_manager_get_device_info_send (some h) ≡ (pos 6, some h'))
      × (g'.device_addr ≡ 2)
      × (h'.device_addr ≡ 2)
      × (g'.register_addr + 6 ≤ h'.register_addr)
unfolding hitachi_vrv_manager_get_device_info_send
hitachi_vrv_manager_get_device_info_send-apart g h below near =
    (_, _, refl, refl, refl, refl, omega arith)
