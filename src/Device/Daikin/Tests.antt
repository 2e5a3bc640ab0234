-- ===== src/Device/Daikin/Tests.antt =====
-- The Daikin adapter at a concrete request.
use rs.Prelude.{◌≡◌, refl, some, [], ◌∷◌, arith, ◌<◌}
use rs.Device.Hitachi.{do_nothing}
use rs.Device.Daikin.{
  normal, glb_daikin_hold_register_value, DaikinPort, daikin_dta116a621_set_fan,
  on_off_swing_fan_offset, load,
}
use rs.Device.Daikin.Words.{fan, meaning, Prepared, setter-Prepared}

-- The fan of the air conditioner 4 to high.
abbrev strong : DaikinPort
strong = record {
  code = do_nothing;
  device_addr = 4;
  register_addr = 0;
  buffer = 0 ∷ 0 ∷ [];
  method = 52;
  value = 0;
}

meaning_strong : meaning 52 ≡ some (fan, 5)
unfolding meaning
meaning_strong = refl

word_4 : load glb_daikin_hold_register_value 4 on_off_swing_fan_offset < 65536
unfolding glb_daikin_hold_register_value
word_4 = omega arith

setter-Prepared_example :
    Prepared fan 5 glb_daikin_hold_register_value strong
      (daikin_dta116a621_set_fan normal glb_daikin_hold_register_value (some strong))
setter-Prepared_example =
    setter-Prepared normal glb_daikin_hold_register_value strong fan 5 refl (omega arith)
      (omega arith) word_4 meaning_strong
