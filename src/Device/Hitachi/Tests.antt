-- ===== src/Device/Hitachi/Tests.antt =====
-- The Hitachi box at concrete requests.
use rs.Prelude.{◌<◌, ◌≡◌, refl, some, [], ◌∷◌, pos, arith}
use rs.Device.Hitachi.{
  write_signle_register, ModbusPort, write, setting, apply, hitachi_vrv_manager_send_package_handle,
}
use rs.Device.Hitachi.Registers.{Writes, hitachi_vrv_manager_send_package_handle-Writes}

-- 26 degrees for the air conditioner 5.
abbrev warm : ModbusPort
warm = record {
  code = write_signle_register;
  device_addr = 5;
  register_addr = 0;
  buffer = 0xff ∷ 0xff ∷ [];
  method = 26;
}

sent :
    hitachi_vrv_manager_send_package_handle (some warm)
    ≡ (pos 1, some (record warm { device_addr = 2; register_addr = 4021; buffer = 0 ∷ 26 ∷ [] }))
unfolding hitachi_vrv_manager_send_package_handle apply setting
sent = refl

setting_fan : setting 54 ≡ write 3 4
unfolding setting
setting_fan = refl

hitachi_vrv_manager_send_package_handle-Writes_example :
    (h' : ModbusPort) × (hitachi_vrv_manager_send_package_handle
        (some (record warm { method = 54 }))
      ≡ (pos 1, some h'))
    × Writes h' 5 3 4
    × (3 < 4)
hitachi_vrv_manager_send_package_handle-Writes_example =
    hitachi_vrv_manager_send_package_handle-Writes (record warm { method = 54 }) (omega arith)
      (omega arith) setting_fan
