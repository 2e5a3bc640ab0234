-- ===== src/Device/Daikin/Words.antt =====
-- The fields of a holding register that the methods set.
use rs.Prelude.{
  ℕ, ◌+◌, ◌*◌, ◌/◌, ◌%◌, ◌≤◌, ◌<◌, ◌≡◌, refl, sym, ap, ap₂, ◌∙◌, subst, Bool, false, Option, none,
  some, List, [], ◌∷◌, pos, neg_one, bit_and, bit_or, get_or, set, length, ltb, ◌==◌, if◌then◌else◌,
  arith,
}
use rs.Device.Daikin.Masks.{keep_0fff, keep_f0ff, keep_fff0, or_fan, or_swing, or_low}
use rs.Device.Hitachi.{write_signle_register, do_nothing}
use rs.Device.Daikin.{
  AdapterStatus, is_waiting, HoldRegisters, Offset, on_off_swing_fan_offset, mode_offset,
  temperature_offset, offset_number, load, save, masked, action, act,
  get_daikin_hold_register_value, get_daikin_write_register_addr, DaikinPort, fill, Sent,
  daikin_set, daikin_dta116a621_set_mode, daikin_dta116a621_set_swing, daikin_dta116a621_set_fan,
  daikin_dta116a621_set_switch,
}

-- The fields of the first two words of an air conditioner.
pub data Field : Type 0 where
  fan swing switch mode : Field

abbrev pub offset_of : Field → Offset
offset_of fan = on_off_swing_fan_offset
offset_of swing = on_off_swing_fan_offset
offset_of switch = on_off_swing_fan_offset
offset_of mode = mode_offset

-- A word with one field replaced: the highest digit in base 16, the next one, or the lowest.
abbrev pub replaced : Field → ℕ → ℕ → ℕ
replaced fan v w = v * 4096 + w % 4096
replaced swing v w = w / 4096 * 4096 + v * 256 + w % 256
replaced switch v w = w / 16 * 16 + v
replaced mode v w = w / 16 * 16 + v

-- The field that a method sets, and its value. The automatic mode, which sets one more bit, is left
-- out.
unfoldable pub meaning : ℕ → Option (Field × ℕ)
meaning m =
    if m == 41
    then some (swing, 2)
    else if m == 42
    then some (swing, 4)
    else if m == 43
    then some (swing, 0)
    else if m == 44
    then some (swing, 7)
    else if m == 51
    then some (fan, 3)
    else if m == 52
    then some (fan, 5)
    else if m == 53
    then some (fan, 3)
    else if m == 54
    then some (fan, 1)
    else if m == 61
    then some (mode, 0)
    else if m == 62
    then some (mode, 1)
    else if m == 63
    then some (mode, 2)
    else if m == 64
    then some (mode, 7)
    else if m == 71
    then some (switch, 0)
    else if m == 72
    then some (switch, 1)
    else none

abbrev mask_of : Field → ℕ
mask_of fan = 0x0fff
mask_of swing = 0xf0ff
mask_of switch = 0xfff0
mask_of mode = 0xfff0

abbrev unit_of : Field → ℕ
unit_of fan = 4096
unit_of swing = 256
unit_of switch = 1
unit_of mode = 1

meaning-action :
    (m v : ℕ) (k : Field)
    → meaning m ≡ some (k, v)
    → (action m ≡ masked (offset_of k) (mask_of k) (v * unit_of k)) × (v < 16)
unfolding meaning action
meaning-action m v fan e = (ground arith, ground arith)
meaning-action m v swing e = (ground arith, ground arith)
meaning-action m v switch e = (ground arith, ground arith)
meaning-action m v mode e = (ground arith, ground arith)

put_field :
    (k : Field) (v w : ℕ)
    → v < 16
    → w < 65536
    → bit_or (v * unit_of k) (bit_and w (mask_of k)) ≡ replaced k v w
put_field fan v w small word =
    ap (bit_or (v * 4096)) (keep_0fff w word) ∙ or_fan v (w % 4096) (omega arith)
put_field swing v w small word =
    ap (bit_or (v * 256)) (keep_f0ff w word) ∙ or_swing v (w / 4096) (w % 256) small (omega arith)
put_field switch v w small word =
    ap₂ bit_or (omega arith) (keep_fff0 w word) ∙ or_low v (w / 16) small
put_field mode v w small word =
    ap₂ bit_or (omega arith) (keep_fff0 w word) ∙ or_low v (w / 16) small

-- The handler of a field.
abbrev pub setter : Field → AdapterStatus → HoldRegisters → Option DaikinPort → Sent
setter fan = daikin_dta116a621_set_fan
setter swing = daikin_dta116a621_set_swing
setter switch = daikin_dta116a621_set_switch
setter mode = daikin_dta116a621_set_mode

-- A write of one register of the adapter.
pub record Writes (h : DaikinPort) (register word : ℕ) : Type 0 where
  pub code : h.code ≡ write_signle_register
  pub slave : h.device_addr ≡ 2
  pub address : h.register_addr ≡ register
  pub high : get_or h.buffer 0 0 ≡ word / 256
  pub low : get_or h.buffer 1 0 ≡ word % 256

set_two :
    (buf : List ℕ) (a b : ℕ)
    → 2 ≤ length buf
    → (get_or (set (set buf 0 a) 1 b) 0 0 ≡ a) × (get_or (set (set buf 0 a) 1 b) 1 0 ≡ b)
set_two [] a b room = absurd (omega arith)
set_two (x ∷ []) a b room = absurd (omega arith)
set_two (x ∷ y ∷ buf) a b room = (refl, refl)

offset-lt : (o : Offset) → offset_number o < 3
offset-lt on_off_swing_fan_offset = omega arith
offset-lt mode_offset = omega arith
offset-lt temperature_offset = omega arith

fill-Writes :
    (h : DaikinPort) (o : Offset) (word : ℕ)
    → h.device_addr ≤ 63
    → 2 ≤ length h.buffer
    → Writes (fill h o word) (2000 + 3 * h.device_addr + offset_number o) word
unfolding fill get_daikin_write_register_addr
fill-Writes h o word near room =
    let (high, low) = set_two h.buffer (word / 256) (word % 256) room in
    record {
      code = refl;
      slave = refl;
      address = omega (arith, offset-lt o);
      high = high;
      low = low;
    }

-- A handler after its tests: the new word in the register, and in the copy.
abbrev pub Prepared : Field → ℕ → HoldRegisters → DaikinPort → Sent → Type 0
Prepared k v t h r =
    let o = offset_of k in
    let new = replaced k v (load t h.device_addr o) in
    (h' : DaikinPort) × (r ≡ (pos 1, some h', save t h.device_addr o new))
    × Writes h' (2000 + 3 * h.device_addr + offset_number o) new

new_word :
    (t : HoldRegisters) (h : DaikinPort) (k : Field) (v : ℕ)
    → load t h.device_addr (offset_of k) < 65536
    → meaning h.method ≡ some (k, v)
    → get_daikin_hold_register_value t h.method h.value h.device_addr ≡ (
        let new = replaced k v (load t h.device_addr (offset_of k)) in
        (new, save t h.device_addr (offset_of k) new))
unfolding get_daikin_hold_register_value act
new_word t h k v word e =
    let (does, small) = meaning-action h.method v k e in
    ap (act t h.value h.device_addr) does
    ∙ ap (λ n. (n, save t h.device_addr (offset_of k) n))
        (put_field k v (load t h.device_addr (offset_of k)) small word)

daikin_set-Prepared :
    (status : AdapterStatus) (t : HoldRegisters) (h : DaikinPort) (k : Field) (v : ℕ)
    → is_waiting status ≡ false
    → h.device_addr ≤ 63
    → 2 ≤ length h.buffer
    → load t h.device_addr (offset_of k) < 65536
    → meaning h.method ≡ some (k, v)
    → Prepared k v t h (daikin_set (offset_of k) status t (some h))
unfolding daikin_set
daikin_set-Prepared status t h k v ready near room word e =
    let new = replaced k v (load t h.device_addr (offset_of k)) in
    let low : ltb 63 h.device_addr ≡ false = ground arith in
    (
      fill h (offset_of k) new,
      ap₂ (λ b c. body b c (get_daikin_hold_register_value t h.method h.value h.device_addr)) ready
            low
          ∙ ap (body false false) (new_word t h k v word e),
      fill-Writes h (offset_of k) new near room,
    )
  where
    body : Bool → Bool → ℕ × HoldRegisters → Sent
    body b c (n, t') =
        if b
        then (pos 0, some (record h { code = do_nothing }), t)
        else if c
        then (neg_one, some (record h { code = write_signle_register }), t)
        else (pos 1, some (fill h (offset_of k) n), t')

not_automatic : (m v : ℕ) → meaning m ≡ some (mode, v) → (m == 51) ≡ false
unfolding meaning
not_automatic m v e = ground arith

setter-eq :
    (k : Field) (status : AdapterStatus) (t : HoldRegisters) (h : DaikinPort) (v : ℕ)
    → meaning h.method ≡ some (k, v)
    → setter k status t (some h) ≡ daikin_set (offset_of k) status t (some h)
unfolding daikin_dta116a621_set_fan daikin_dta116a621_set_swing daikin_dta116a621_set_switch
    daikin_dta116a621_set_mode
setter-eq fan status t h v e = refl
setter-eq swing status t h v e = refl
setter-eq switch status t h v e = refl
setter-eq mode status t h v e =
    ap
      (λ b.
        if b
        then (pos 0, some (record h { code = do_nothing }), t)
        else daikin_set mode_offset status t (some h))
      (not_automatic h.method v e)

-- Once the adapter is initialised, the handler of a method of the fan, the swing, the switch or a
-- mode other than the automatic one, for one of the 64 air conditioners and a buffer of two bytes,
-- makes one write to the slave 2: the register, of the three of that air conditioner from 2000 on,
-- gets its word of the driver's copy with only the digits of that field replaced, and the copy is
-- the same but for that word.
pub setter-Prepared :
    (status : AdapterStatus) (t : HoldRegisters) (h : DaikinPort) (k : Field) (v : ℕ)
    → is_waiting status ≡ false
    → h.device_addr ≤ 63
    → 2 ≤ length h.buffer
    → load t h.device_addr (offset_of k) < 65536
    → meaning h.method ≡ some (k, v)
    → Prepared k v t h (setter k status t (some h))
setter-Prepared status t h k v ready near room word e =
    subst (Prepared k v t h) (sym (setter-eq k status t h v e))
      (daikin_set-Prepared status t h k v ready near room word e)
