-- ===== src/Device/Johnson/Tests.antt =====
-- The Johnson Controls box at concrete requests.
use rs.Prelude.{◌≡◌, refl, [], ◌∷◌}
use rs.Device.Hitachi.{write_multiple_registers}
use rs.Device.Johnson.{
  WordPort, indoor_status, change, johnson_controls_vrv_send_package_handle, finish_status, update,
  with_status, selected,
}

-- 18 degrees for the unit 17.
abbrev cool : WordPort
cool = record {
  code = write_multiple_registers;
  device_addr = 17;
  register_addr = 0;
  value = 1 ∷ 1 ∷ 1 ∷ 1 ∷ 0 ∷ 0 ∷ [];
  method = 18;
}

-- The word sent holds 27 degrees: 25 or 18.
sent :
    (johnson_controls_vrv_send_package_handle indoor_status cool).1.value
    ≡ 0 ∷ 0 ∷ 2 ∷ 0 ∷ 2 ∷ 0x041b ∷ []
unfolding johnson_controls_vrv_send_package_handle finish_status update with_status selected change
    indoor_status
sent = refl
