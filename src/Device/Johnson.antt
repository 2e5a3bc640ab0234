-- ===== src/Device/Johnson.antt =====
-- The Johnson Controls VRV box, app/rs485d/src/device/airCondition/york/johnson_controls.c: one write of six
-- registers, four that select the unit and two with its status, which the driver keeps for 64 units.
pub mod Wish
pub mod Status
mod Tests
use rs.Prelude.{
  ℕ, ◌+◌, ◌-◌, ◌*◌, ◌/◌, ◌%◌, ◌^◌, ◌≡◌, Bool, true, false, ◌&&◌, not, Option, none, some, List, [],
  ◌∷◌, ℤ, pos, neg_einval, bit_or, u16, get_or, set, replicate, ltb, leb, ◌==◌, if◌then◌else◌,
}
use rs.Device.Hitachi.{FunctionCode, write_multiple_registers, read_multiple_registers, do_nothing}

-- The fields of `modbus_port_handle_t` that the driver uses; `value` are the 16-bit words of the
-- buffer.
pub record WordPort : Type 0 where
  pub code : FunctionCode
  pub device_addr : ℕ
  pub register_addr : ℕ
  pub value : List ℕ
  pub method : ℕ

-- `indoor_status`: the two words of each unit.
pub record Indoor : Type 0 where
  pub first : List ℕ
  pub second : List ℕ

pub indoor_status : Indoor
indoor_status = record { first = replicate 64 0x0002; second = replicate 64 0x0419 }

-- A case of the switch: the bits that are or-ed into the first or the second word.
pub data Change : Type 0 where
  into_first into_second : ℕ → Change
  unknown : Change

pub change : ℕ → Change
change method =
    if leb 18 method && leb method 30 && not (method == 21)
    then into_second method
    else if leb 41 method && leb method 43
    then into_first 0x02
    else if method == 44
    then into_first 0x00
    else if method == 51
    then into_second 0x0400
    else if method == 52
    then into_second 0x0300
    else if method == 53
    then into_second 0x0200
    else if method == 54
    then into_second 0x0100
    else if method == 61
    then into_first 0x0300
    else if method == 62
    then into_first 0x0400
    else if method == 63
    then into_first 0x0100
    else if method == 64
    then into_first 0x0200
    else if method == 65
    then into_first 0x0200
    else if method == 71
    then into_first 0x0000
    else if method == 72
    then into_first 0x0200
    else unknown

-- The words that select the unit: the word of its group of 16 shifted, and the others 0.
pub selected : ℕ → List ℕ → List ℕ
selected addr value =
    let shifted : ℕ → ℕ = λ i. u16 (get_or value i 0 * 2 ^ (addr % 16)) in
    let word : ℕ → ℕ = λ i. if addr / 16 == 3 - i then shifted i else 0 in
    set (set (set (set value 0 (word 0)) 1 (word 1)) 2 (word 2)) 3 (word 3)

-- `*(value + 4)` and `*(value + 5)`
pub with_status : WordPort → Indoor → WordPort
with_status h t = record h {
  value = set (set h.value 4 (get_or t.first h.device_addr 0)) 5 (get_or t.second h.device_addr 0);
  device_addr = 2;
}

pub update : Indoor → ℕ → Change → Indoor
update t addr (into_first bits) = record t {
  first = set t.first addr (bit_or (get_or t.first addr 0) bits);
}
update t addr (into_second bits) = record t {
  second = set t.second addr (bit_or (get_or t.second addr 0) bits);
}
update t addr unknown = t

pub finish_status : Indoor → WordPort → Change → ℤ × WordPort × Indoor
finish_status t h unknown = (pos 0, record h { code = do_nothing }, t)
finish_status t h (into_first bits) =
    let t' = update t h.device_addr (into_first bits) in (pos 6, with_status h t', t')
finish_status t h (into_second bits) =
    let t' = update t h.device_addr (into_second bits) in (pos 6, with_status h t', t')

-- `johnson_controls_vrv_send_package_handle(arg)` on a handle with a buffer.
pub johnson_controls_vrv_send_package_handle : Indoor → WordPort → ℤ × WordPort × Indoor
johnson_controls_vrv_send_package_handle t h =
    if leb 64 h.device_addr
    then (neg_einval, record h { code = write_multiple_registers }, t)
    else finish_status t
        (record h {
          code = write_multiple_registers;
          value = selected h.device_addr h.value;
          register_addr = 3000;
        })
        (change h.method)

-- `johnson_controls_vrv_get_device_info_send(arg)`, which reads.
pub johnson_controls_vrv_get_device_info_send : WordPort → ℤ × WordPort
johnson_controls_vrv_get_device_info_send h = (
  pos 16,
  record h {
    code = read_multiple_registers;
    register_addr = h.device_addr * 16 + 500;
    device_addr = 2;
  },
)
