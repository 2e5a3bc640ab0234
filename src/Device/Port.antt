-- ===== src/Device/Port.antt =====
-- What the drivers share: the handle that the general protocol passes to them
-- (`mstp_port_handle_t`, of which the fields below are used), the methods of
-- app/rs485d/include/enum.h and the information of app/rs485d/include/adapter.h.
use rs.Prelude.{ℕ, suc, ◌≤◌, ◌≡◌, refl, ap, Bool, Option, List, [], ◌∷◌, arith, length, take, drop}

-- The buffer is what `package_buffer` points to, and `none` is NULL. The buffer may be longer than
-- the `package_buffer_len` that the driver is told.
pub record MstpPort : Type 0 where
  pub package_buffer : Option (List ℕ)
  pub package_buffer_len : ℕ
  pub address : List ℕ
  pub address_len : ℕ
  pub broadcast : Bool
  pub except_reply : Bool
  pub method : ℕ
  pub value : ℕ
  pub device_id : ℕ
  pub retransmission : ℕ
  pub timeout_ms : ℕ

-- `rs485_device_method_enum`, the methods that the drivers below name.
abbrev pub air_set_temp_18 : ℕ
air_set_temp_18 = 18

abbrev pub air_set_temp_30 : ℕ
air_set_temp_30 = 30

abbrev pub curtain_open : ℕ
curtain_open = 101

abbrev pub curtain_close : ℕ
curtain_close = 102

abbrev pub curtain_set_percent : ℕ
curtain_set_percent = 103

abbrev pub curtain_reset : ℕ
curtain_reset = 104

abbrev pub curtain_get_device_info : ℕ
curtain_get_device_info = 105

abbrev pub fresh_air_auto_on : ℕ
fresh_air_auto_on = 201

abbrev pub fresh_air_auto_off : ℕ
fresh_air_auto_off = 202

abbrev pub fresh_air_get_device_info : ℕ
fresh_air_get_device_info = 204

-- `read_device_return_t`, what a driver hands to `set_read_device_information`.
pub record CurtainInfo : Type 0 where
  pub error : Bool
  pub runing : Bool
  pub current_percent : ℕ

pub record FreshAirInfo : Type 0 where
  pub error : Bool
  pub runing : Bool
  pub room_temperature : ℕ
  pub room_humidity : ℕ
  pub pm2_5 : ℕ
  pub fresh_level : ℕ

-- `memcpy(buffer, bytes, length bytes)` into a buffer: what does not fit is not written.
abbrev pub memcpy : List ℕ → List ℕ → List ℕ
memcpy buf [] = buf
memcpy [] (b ∷ bs) = []
memcpy (x ∷ buf) (b ∷ bs) = b ∷ memcpy buf bs

pub take-memcpy : (buf bs : List ℕ) → length bs ≤ length buf → take (length bs) (memcpy buf bs) ≡ bs
take-memcpy buf [] h = refl
take-memcpy [] (b ∷ bs) h = absurd (omega arith)
take-memcpy (x ∷ buf) (b ∷ bs) h = ap (λ l. b ∷ l) (take-memcpy buf bs (omega arith))

pub length-memcpy : (buf bs : List ℕ) → length (memcpy buf bs) ≡ length buf
length-memcpy buf [] = refl
length-memcpy [] (b ∷ bs) = refl
length-memcpy (x ∷ buf) (b ∷ bs) = ap suc (length-memcpy buf bs)

-- What lies behind the written bytes is left.
pub drop-memcpy : (buf bs : List ℕ) → drop (length bs) (memcpy buf bs) ≡ drop (length bs) buf
drop-memcpy buf [] = refl
drop-memcpy [] (b ∷ bs) = refl
drop-memcpy (x ∷ buf) (b ∷ bs) = drop-memcpy buf bs
