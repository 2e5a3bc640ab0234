-- ===== src/Device/Doya/Tests.antt =====
-- The Dooya driver at concrete handles.
use rs.Prelude.{
  ℕ, ◌≡◌, ◌≢◌, ◌⊎◌, inr, refl, true, false, none, some, List, [], ◌∷◌, ◌++◌, arith, pos, neg_eio,
  length, take, replicate, ◌==◌, if◌then◌else◌,
}
use rs.Crc.{crc_loop, crc_start, modbus_crc16}
use rs.Crc.Residue.{crc_zero}
use rs.Crc.Bitwise.{crc16}
use rs.Device.Port.{MstpPort}
use rs.Device.Doya.{Package, blank, doya_send_package_handle, doya_recv_package_handle}
use rs.Device.Doya.Frame.{IsReady, payload, request, line_low, doya_send_package_handle-request}
use rs.Device.Doya.Reply.{Received, doya_recv_package_handle-control}
use rs.Device.Doya.NoReply.{IsStack}

abbrev buffer : List ℕ
buffer = replicate 12 0

-- Half way, for the curtain at 0x3412.
abbrev half_way : MstpPort
half_way = record {
  package_buffer = some buffer;
  package_buffer_len = 12;
  address = 0x34 ∷ 0x12 ∷ [];
  address_len = 2;
  broadcast = false;
  except_reply = true;
  method = 103;
  value = 306;
  device_id = 7;
  retransmission = 3;
  timeout_ms = 300;
}

abbrev half_way_frame : List ℕ
half_way_frame = 0x55 ∷ 0x12 ∷ 0x34 ∷ 3 ∷ 4 ∷ 50 ∷ 0xc9 ∷ 0x38 ∷ []

half_way-IsReady : IsReady half_way buffer
half_way-IsReady = record {
  points = refl;
  has_room = omega arith;
  low_byte = omega arith;
  high_byte = omega arith;
}

request-half_way : request half_way ≡ some half_way_frame
unfolding request payload crc16
request-half_way = refl

doya_send_package_handle-request_example :
    (out : List ℕ) × (doya_send_package_handle (some half_way) ≡ (
      pos (length half_way_frame),
      some (record half_way {
        package_buffer = some out;
        except_reply = if line_low half_way == 0 then false else true;
      }),
    ))
    × (take (length half_way_frame) out ≡ half_way_frame)
    × (length out ≡ length buffer)
doya_send_package_handle-request_example =
    doya_send_package_handle-request half_way half_way-IsReady (omega arith) request-half_way
      (omega arith)

-- The same with an address of one byte.
abbrev short_address : MstpPort
short_address = record half_way { address_len = 1 }

short_address-IsReady : IsReady short_address buffer
short_address-IsReady = record {
  points = refl;
  has_room = omega arith;
  low_byte = omega arith;
  high_byte = omega arith;
}

-- The reply to a command repeats its frame; 0xee was in the buffer before.
abbrev replied : MstpPort
replied = record half_way {
  package_buffer = some (half_way_frame ++ (0xee ∷ []));
  package_buffer_len = 8;
}

replied-Received : Received replied (take 6 half_way_frame) 0xc9 0x38 (0xee ∷ [])
replied-Received = record {
  points = refl;
  counted = refl;
  bytes = omega arith;
  first_byte = omega arith;
  second_byte = omega arith;
}

doya_recv_package_handle-control_example :
    ((crc_loop crc_start (take 6 half_way_frame ++ (0xc9 ∷ 0x38 ∷ [])) ≡ crc_zero)
      × (doya_recv_package_handle (some replied) ≡ (pos 0, none)))
    ⊎ ((crc_loop crc_start (take 6 half_way_frame ++ (0xc9 ∷ 0x38 ∷ [])) ≢ crc_zero)
        × (doya_recv_package_handle (some replied) ≡ (neg_eio, none)))
doya_recv_package_handle-control_example =
    doya_recv_package_handle-control replied (take 6 half_way_frame) (0xee ∷ []) 0xc9 0x38
      replied-Received (inr (inr refl))

-- A query of the position is answered by a sealed frame of seven bytes, which is refused.
abbrev position : List ℕ
position = 0x55 ∷ 0x12 ∷ 0x34 ∷ 0x01 ∷ 0x32 ∷ []

abbrev answered : MstpPort
answered = record half_way {
  package_buffer = some (position ++ (0xec ∷ 0xff ∷ []));
  package_buffer_len = 7;
  method = 105;
}

answered-Received : Received answered position 0xec 0xff []
answered-Received = record {
  points = refl;
  counted = refl;
  bytes = omega arith;
  first_byte = omega arith;
  second_byte = omega arith;
}

answered_sealed : modbus_crc16 (position ++ (0xec ∷ 0xff ∷ [])) 7 ≡ crc_zero
unfolding modbus_crc16
answered_sealed = refl

-- A stack that held 0x99 in every data byte.
abbrev stack : Package
stack = record blank { data_0 = 0x99; data_1 = 0x99 }

stack-IsStack : IsStack stack (0x12 ∷ 0x34 ∷ [])
stack-IsStack = record {
  low_byte = omega arith;
  high_byte = omega arith;
  junk_0 = omega arith;
  junk_1 = omega arith;
}

abbrev at : List ℕ
at = 0x12 ∷ 0x34 ∷ []
