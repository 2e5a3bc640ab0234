-- ===== src/Device/Aoke/Tests.antt =====
-- The Aoke driver at concrete handles.
use rs.Prelude.{ℕ, ◌≡◌, refl, true, none, some, List, [], ◌∷◌, arith, pos, take, drop, replicate}
use rs.Device.Port.{MstpPort}
use rs.Device.Aoke.{get_check, package_of, bytes_of, set_broadcast, store, aoke_send_package_handle}
use rs.Device.Aoke.Frame.{move_to, decode, asked, aoke_send_package_handle-decode}

abbrev buffer : List ℕ
buffer = replicate 9 1

-- A third of the way, for all curtains.
abbrev all_third : MstpPort
all_third = record {
  package_buffer = some buffer;
  package_buffer_len = 9;
  address = 0x12 ∷ 0x34 ∷ 0x56 ∷ [];
  address_len = 3;
  broadcast = true;
  except_reply = true;
  method = 103;
  value = 289;
  device_id = 7;
  retransmission = 3;
  timeout_ms = 300;
}

sent : aoke_send_package_handle (some all_third) ≡ (
  pos 7,
  some (record all_third {
    address = 0 ∷ 0xff ∷ 0xff ∷ [];
    package_buffer = some (0x9a ∷ 0 ∷ 0xff ∷ 0xff ∷ 0xdd ∷ 33 ∷ 252 ∷ 1 ∷ 1 ∷ []);
  }),
)
unfolding aoke_send_package_handle package_of bytes_of get_check set_broadcast store
sent = refl

asked-all_third : asked all_third ≡ some (0 ∷ 0xff ∷ 0xff ∷ [], move_to 33)
unfolding asked
asked-all_third = refl

aoke_send_package_handle-decode_example :
    (out : List ℕ) × (aoke_send_package_handle (some all_third)
      ≡ (pos 7, some (record (set_broadcast all_third) { package_buffer = some out })))
    × (decode (take 7 out) ≡ some (0 ∷ 0xff ∷ 0xff ∷ [], move_to 33))
    × (drop 7 out ≡ drop 7 buffer)
aoke_send_package_handle-decode_example =
    aoke_send_package_handle-decode all_third
      (record {
        points = refl;
        three = refl;
        address = omega arith;
        room = omega arith;
        storage = omega arith;
      })
      asked-all_third

-- A method of the fresh air.
abbrev wrong_method : MstpPort
wrong_method = record all_third { method = 201 }

asked-wrong_method : asked wrong_method ≡ none
unfolding asked
asked-wrong_method = refl
