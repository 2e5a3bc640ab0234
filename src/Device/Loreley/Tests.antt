-- ===== src/Device/Loreley/Tests.antt =====
-- The Loreley driver at concrete handles.
use rs.Prelude.{
  ℕ, ◌≡◌, refl, true, false, none, some, List, [], ◌∷◌, arith, pos, neg_eio, take, drop, set,
  replicate,
}
use rs.Device.Port.{MstpPort}
use rs.Device.Loreley.{
  sum_loop, calculate_sum_check, with_sum, build, loreley_send_package, command_of,
  loreley_send_package_handle, loreley_recv_package_handle,
}
use rs.Device.Loreley.Frame.{decode, asked, loreley_send_package_handle-decode}
use rs.Device.Loreley.Reply.{
  Received, loreley_recv_package_handle-reply, loreley_recv_package_handle-set,
}

abbrev buffer : List ℕ
buffer = replicate 13 0

abbrev switch_on : MstpPort
switch_on = record {
  package_buffer = some buffer;
  package_buffer_len = 13;
  address = 0x07 ∷ [];
  address_len = 1;
  broadcast = false;
  except_reply = true;
  method = 201;
  value = 0;
  device_id = 7;
  retransmission = 3;
  timeout_ms = 300;
}

sent : loreley_send_package_handle (some switch_on) ≡ (
  pos 12,
  some (record switch_on {
    package_buffer = some (0xaa ∷ 7 ∷ 0x23 ∷ 0x60 ∷ 5 ∷ 1 ∷ 1 ∷ 0 ∷ 0 ∷ 0 ∷ 0x6f ∷ 0x0d ∷ 0 ∷ []);
  }),
)
unfolding loreley_send_package_handle loreley_send_package build with_sum calculate_sum_check
    sum_loop command_of
sent = refl

asked-switch_on : asked switch_on ≡ some (7, 0x23, 1 ∷ 1 ∷ 0 ∷ 0 ∷ 0 ∷ [])
unfolding asked
asked-switch_on = refl

loreley_send_package_handle-decode_example :
    (out : List ℕ) × (loreley_send_package_handle (some switch_on)
      ≡ (pos 12, some (record switch_on { package_buffer = some out })))
    × (decode (take 12 out) ≡ some (7, 0x23, 1 ∷ 1 ∷ 0 ∷ 0 ∷ 0 ∷ []))
    × (drop 12 out ≡ drop 12 buffer)
loreley_send_package_handle-decode_example =
    loreley_send_package_handle-decode switch_on
      (record { points = refl; one = refl; storage = omega arith }) asked-switch_on (omega arith)

-- Room for eleven of the twelve bytes.
abbrev narrow : MstpPort
narrow = record switch_on { package_buffer_len = 11 }

asked-narrow : asked narrow ≡ some (7, 0x23, 1 ∷ 1 ∷ 0 ∷ 0 ∷ 0 ∷ [])
unfolding asked
asked-narrow = refl

-- 25 degrees, humidity 50, running.
abbrev report : List ℕ
report = 0x55 ∷ 7 ∷ 0x22 ∷ 1 ∷ 11 ∷ 1 ∷ 1 ∷ 25 ∷ 0 ∷ 50 ∷ 0 ∷ 3 ∷ 100 ∷ 0 ∷ 0 ∷ 1 ∷ 0x16 ∷ 0x0d ∷ []

abbrev reporting : MstpPort
reporting = record switch_on { package_buffer = some report; package_buffer_len = 18; method = 204 }

reporting-Received : Received reporting report
reporting-Received = record {
  points = refl;
  long = omega arith;
  storage = omega arith;
  byte = omega arith;
}

loreley_recv_package_handle-reply_example : loreley_recv_package_handle (some reporting) ≡ (
  pos 0,
  some (record {
    error = false;
    runing = true;
    room_temperature = 25;
    room_humidity = 50;
    pm2_5 = 3;
    fresh_level = 1;
  }),
)
loreley_recv_package_handle-reply_example =
    loreley_recv_package_handle-reply reporting reporting-Received

-- The temperature arrives as 153.
loreley_recv_package_handle-set_example :
    loreley_recv_package_handle
      (some (record reporting { package_buffer = some (set report 7 153) }))
    ≡ (neg_eio, none)
loreley_recv_package_handle-set_example =
    loreley_recv_package_handle-set reporting 7 153 reporting-Received refl (omega arith)
      (omega arith) (omega arith) (omega arith)
