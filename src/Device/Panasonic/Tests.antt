-- ===== src/Device/Panasonic/Tests.antt =====
-- The Panasonic driver at a concrete handle.
use rs.Prelude.{◌≡◌, refl, true, false, some, List, [], ◌∷◌, ℕ, arith, pos, take, drop, replicate}
use rs.Device.Port.{MstpPort}
use rs.Device.Loreley.{sum_loop}
use rs.Device.Panasonic.{
  calculate_sum_check, sealed, build, too_short, panasonnic_send_package, row_of, command_at,
  command_of, panasonnic_send_package_handle,
}
use rs.Device.Panasonic.Wish.{temperature, swing, frame_length, decode, meaning}
use rs.Device.Panasonic.Frame.{panasonnic_send_package_handle-decode}

abbrev buffer : List ℕ
buffer = replicate 13 0

-- 26 degrees for the unit 1.
abbrev warm : MstpPort
warm = record {
  package_buffer = some buffer;
  package_buffer_len = 13;
  address = 0x01 ∷ [];
  address_len = 1;
  broadcast = false;
  except_reply = true;
  method = 26;
  value = 0;
  device_id = 7;
  retransmission = 3;
  timeout_ms = 300;
}

-- The row of the table in the source's comment.
sent : panasonnic_send_package_handle (some warm) ≡ (
  pos 12,
  some (record warm {
    package_buffer = some (0xaa ∷ 1 ∷ 3 ∷ 0x60 ∷ 5 ∷ 5 ∷ 0 ∷ 0 ∷ 0x34 ∷ 0 ∷ 0x5e ∷ 0x0d ∷ 0 ∷ []);
  }),
)
unfolding panasonnic_send_package_handle panasonnic_send_package build sealed calculate_sum_check
    sum_loop command_of command_at row_of too_short
sent = refl

-- Left and right is sent as the fixed position 5.
meaning-swing : meaning 43 ≡ some (swing 5)
unfolding meaning
meaning-swing = refl

meaning-warm : meaning 26 ≡ some (temperature 26)
unfolding meaning
meaning-warm = refl

panasonnic_send_package_handle-decode_example :
    (out : List ℕ) × (panasonnic_send_package_handle (some warm)
      ≡ (pos (frame_length (temperature 26)), some (record warm { package_buffer = some out })))
    × (decode (take (frame_length (temperature 26)) out) ≡ some (1, temperature 26))
    × (drop (frame_length (temperature 26)) out ≡ drop (frame_length (temperature 26)) buffer)
unfolding frame_length
panasonnic_send_package_handle-decode_example =
    panasonnic_send_package_handle-decode warm
      (record { points = refl; one = refl; storage = omega arith; int = omega arith }) meaning-warm
      (omega arith)
