-- ===== src/Device/York/Objects.antt =====
-- The property of the air conditioner that a method writes.
use rs.Prelude.{
  ℕ, ◌+◌, ◌-◌, ◌%◌, ◌<◌, ◌≡◌, refl, sym, ap, ◌∙◌, subst, Bool, true, false, ◌&&◌, Option, none,
  some, ℤ, pos, negsuc, neg_eperm, get_or, arith, leb, ◌==◌, if◌then◌else◌, all_below,
  all_below_sound,
}
use rs.Device.York.{
  WriteArgs, store_row, rows_of, store_rows, get_air_york_write_args, index_of, BacnetPort,
  write_property, device_of, put_write_arg, york_kelong_set_temperature, york_kelong_set_mode,
  york_kelong_set_swing, york_kelong_set_fan, york_kelong_set_switch,
}
use rs.Device.York.Table.{Object, object_at, decimal, digits_of}
use rs.Device.York.Units.{device_named, get_air_york_instance-named}
use rs.Device.York.Decimal.{read_decimal}

-- The objects of the air conditioner: the set temperature, the states of mode, fan and swing, the
-- switch.
pub data Setting : Type 0 where
  set_point mode fan swing switch : Setting

-- Its kind, its number among the objects of the kind, and the type of its values, in BACnet's
-- numbers: analog value 0 (real), multi-state value 0, 1, 2 (unsigned), binary value 0 (enumerated).
abbrev pub kind_of : Setting → ℕ
kind_of set_point = 2
kind_of switch = 5
kind_of mode = 14
kind_of fan = 14
kind_of swing = 14

abbrev pub number_of : Setting → ℕ
number_of set_point = 0
number_of mode = 0
number_of fan = 1
number_of swing = 2
number_of switch = 0

abbrev pub type_of : Setting → ℕ
type_of set_point = 4
type_of switch = 9
type_of mode = 2
type_of fan = 2
type_of swing = 2

-- What a method sets, and to which value. The fan's low and middle are 2 and 3 in the air
-- conditioner. The modes from 61 on are written as 0 and 1 in turn, although the table numbers
-- them 0 to 4.
unfoldable pub meaning : ℕ → Option (Setting × ℕ)
meaning m =
    if leb 18 m && leb m 30
    then some (set_point, m)
    else if leb 41 m && leb m 44
    then some (swing, m - 41)
    else if m == 51
    then some (fan, 0)
    else if m == 52
    then some (fan, 1)
    else if m == 53
    then some (fan, 3)
    else if m == 54
    then some (fan, 2)
    else if leb 61 m && leb m 65
    then some (mode, (m + 1) % 2)
    else if m == 71
    then some (switch, 0)
    else if m == 72
    then some (switch, 1)
    else none

-- The arguments write `value` to the present value (85) of the object of `k` in the device `id`, at
-- priority 16.
pub record Sets (args : WriteArgs) (id : ℕ) (k : Setting) (value : ℕ) : Type 0 where
  pub device : args.device_id ≡ id
  pub kind : args.object_type ≡ kind_of k
  pub number : args.object_instance ≡ number_of k
  pub property : args.object_property ≡ 85
  pub priority : args.object_property_priority ≡ 16
  pub whole : args.object_property_index ≡ 0xFFFFFFFF
  pub type : args.object_property_value_type ≡ type_of k
  pub text : read_decimal 0 args.object_property_value ≡ value

abbrev is_all : ℤ → Bool
is_all (pos n) = false
is_all (negsuc n) = n == 0

abbrev row_fits : Object → Setting → Bool
row_fits o k =
    (o.kind == kind_of k)
    && ((o.instance == number_of k)
        && ((o.property == 85) && ((o.priority == 16) && (o.value_type == type_of k))))

abbrev fits : Option (ℕ × ℕ) → Setting → ℕ → Bool
fits none k v = false
fits (some (r, s)) k v =
    row_fits (object_at r) k
    && (is_all (object_at s).index && (read_decimal 0 (decimal (object_at s).value) == v))

abbrev agrees : Option (Setting × ℕ) → Option (ℕ × ℕ) → Bool
agrees none rows = true
agrees (some (k, v)) rows = fits rows k v

agrees_all : all_below 82 (λ m. agrees (meaning m) (rows_of m)) ≡ true
unfolding all_below meaning rows_of object_at digits_of
agrees_all = refl

agrees_below : (m : ℕ) → m < 82 → agrees (meaning m) (rows_of m) ≡ true
agrees_below m below = all_below_sound 82 (λ k. agrees (meaning k) (rows_of k)) m agrees_all below

meaning-below : (m v : ℕ) (k : Setting) → meaning m ≡ some (k, v) → m < 82
unfolding meaning
meaning-below m v k e = ground arith

index_of_all : (x : ℤ) (old : ℕ) → is_all x ≡ true → index_of x old ≡ 0xFFFFFFFF
index_of_all (pos n) old e = ground arith
index_of_all (negsuc ℕ.zero) old e = refl
index_of_all (negsuc (ℕ.suc n)) old e = ground arith

-- Rows that fit store arguments that set the value.
store_rows-Sets :
    (args : WriteArgs) (id v : ℕ) (k : Setting) (rows : Option (ℕ × ℕ))
    → fits rows k v ≡ true
    → (args' : WriteArgs) × (store_rows args id rows ≡ (pos 0, some args')) × Sets args' id k v
unfolding store_row
store_rows-Sets args id v k none e = ground arith
store_rows-Sets args id v k (some (r, s)) e = (
  store_row args id r s,
  refl,
  record {
    device = refl;
    kind = ground arith;
    number = ground arith;
    property = ground arith;
    priority = ground arith;
    whole = index_of_all (object_at s).index args.object_property_index (ground arith);
    type = ground arith;
    text = ground arith;
  },
)

write_args_rows :
    (args : WriteArgs) (id m : ℕ)
    → get_air_york_write_args (some args) id m ≡ store_rows args id (rows_of m)
unfolding get_air_york_write_args
write_args_rows args id m = ground arith

get_air_york_write_args-Sets :
    (args : WriteArgs) (id m v : ℕ) (k : Setting)
    → meaning m ≡ some (k, v)
    → (args' : WriteArgs) × (get_air_york_write_args (some args) id m ≡ (pos 0, some args'))
      × Sets args' id k v
get_air_york_write_args-Sets args id m v k e =
    let fit : fits (rows_of m) k v ≡ true =
      subst (λ p. agrees p (rows_of m) ≡ true) e (agrees_below m (meaning-below m v k e)) in
    let (args', stored, sets) = store_rows-Sets args id v k (rows_of m) fit in
    (args', write_args_rows args id m ∙ stored, sets)

-- The handler that the client's method calls.
abbrev pub writer : Setting → Option BacnetPort → ℤ × Option BacnetPort
writer set_point = york_kelong_set_temperature
writer mode = york_kelong_set_mode
writer fan = york_kelong_set_fan
writer swing = york_kelong_set_swing
writer switch = york_kelong_set_switch

-- The five have the same body.
writer_same : (k : Setting) (h : Option BacnetPort) → writer k h ≡ york_kelong_set_temperature h
unfolding york_kelong_set_mode york_kelong_set_fan york_kelong_set_swing york_kelong_set_switch
writer_same set_point h = refl
writer_same mode h = refl
writer_same fan h = refl
writer_same swing h = refl
writer_same switch h = refl

-- A handler prepares the write of a setting to a value: it returns 0, and the handle holds the
-- code of a write and its arguments, for the device that the address names.
abbrev pub Prepares : BacnetPort → ℕ → Setting → ℕ → ℤ × Option BacnetPort → Type 0
Prepares h id k v r =
    (h' : BacnetPort) × (r ≡ (pos 0, some h'))
    × (h'.code ≡ write_property)
    × (h'.mac ≡ h.mac)
    × (h'.method ≡ h.method)
    × Sets h'.write_arg id k v

set_temperature_body :
    (h : BacnetPort)
    → let id = device_of h in
      let old : WriteArgs = record h.write_arg { device_id = id } in
      york_kelong_set_temperature (some h)
      ≡ put_write_arg
          (record h { code = write_property; write_arg = old })
          (get_air_york_write_args (some old) id h.method)
unfolding york_kelong_set_temperature
set_temperature_body h = refl

set_temperature-Prepares :
    (h : BacnetPort) (k : Setting) (v : ℕ)
    → meaning h.method ≡ some (k, v)
    → Prepares h (device_of h) k v (york_kelong_set_temperature (some h))
unfolding york_kelong_set_temperature
set_temperature-Prepares h k v e =
    let id = device_of h in
    let old : WriteArgs = record h.write_arg { device_id = id } in
    let h' : BacnetPort = record h { code = write_property; write_arg = old } in
    let (args', made, sets) = get_air_york_write_args-Sets old id h.method v k e in
    (record h' { write_arg = args' }, ap (put_write_arg h') made, refl, refl, refl, sets)

-- The handler of a method's setting returns 0 and leaves in the handle a write of that setting's
-- object, at priority 16, whose text spells the value of the method: the degrees, the swing, the
-- fan's speed, the switch, and for the modes 0 or 1. The device is 10001 to 10015 for an address from
-- 0x11 to 0x1f, and 2 ^ 32 - 1 for all others.
pub writer-Prepares :
    (h : BacnetPort) (k : Setting) (v : ℕ)
    → meaning h.method ≡ some (k, v)
    → Prepares h (device_named (get_or h.mac 0 0)) k v (writer k (some h))
writer-Prepares h k v e =
    subst (Prepares h (device_named (get_or h.mac 0 0)) k v) (sym (writer_same k (some h))) (
      subst (λ id. Prepares h id k v (york_kelong_set_temperature (some h)))
        (get_air_york_instance-named (get_or h.mac 0 0)) (set_temperature-Prepares h k v e))

meaning-rows_of : (m : ℕ) → meaning m ≡ none → rows_of m ≡ none
unfolding meaning rows_of
meaning-rows_of m e = ground arith

-- A method that sets nothing is answered with -EPERM by each of the five handlers, and the handle
-- keeps the old write but for its device.
pub writer-rejects :
    (h : BacnetPort) (k : Setting)
    → meaning h.method ≡ none
    → writer k (some h) ≡ (
      neg_eperm,
      some (record h {
        code = write_property;
        write_arg = record h.write_arg { device_id = device_named (get_or h.mac 0 0) };
      }),
    )
writer-rejects h k e =
    let id = device_of h in
    let old : WriteArgs = record h.write_arg { device_id = id } in
    let h' : BacnetPort = record h { code = write_property; write_arg = old } in
    let refused : get_air_york_write_args (some old) id h.method ≡ (neg_eperm, some old) =
      write_args_rows old id h.method ∙ ap (store_rows old id) (meaning-rows_of h.method e) in
    writer_same k (some h)
    ∙ set_temperature_body h
    ∙ ap (put_write_arg h') refused
    ∙ ap
        (λ d. (
          neg_eperm,
          some (record h {
            code = write_property;
            write_arg = record h.write_arg { device_id = d };
          }),
        ))
        (get_air_york_instance-named (get_or h.mac 0 0))
