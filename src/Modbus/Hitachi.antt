-- ===== src/Modbus/Hitachi.antt =====
-- The worker with the driver of the Hitachi box: from the client's method to the register.
use rs.Prelude.{
  ℕ, ◌+◌, ◌*◌, ◌≤◌, ◌<◌, ◌≡◌, refl, ap, ap₂, ◌∙◌, subst, Option, none, some, List, pos, get_or,
  length, bit_or, ◌==◌, if◌then◌else◌, arith,
}
use Prim.Native.Nat.{bit_or-bitwise}
use rs.Device.Hitachi.{ModbusPort, hitachi_vrv_manager_send_package_handle}
use rs.Device.Hitachi.Registers.{Writes, hitachi_vrv_manager_send_package_handle-temperature}
use rs.Modbus.{
  LibModbus, Handler, Handle, Message, Outcome, writes, keeping, retried, step_of, word_in,
  modbus_work, packaged,
}
use rs.Modbus.Retry.{Attempted}
use rs.Modbus.Process.{opened, modbus_work-packaged, packaged-writes}

-- The driver's handler as the worker's: it changes the port only.
abbrev pub put_port : Message → Option ModbusPort → Message
put_port m none = m
put_port m (some p) = record m { port = p }

abbrev pub hitachi_send : {W : Type 0} → Handler W
hitachi_send m w =
    let (n, p) = hitachi_vrv_manager_send_package_handle (some m.port) in (n, put_port m p, w)

register-eq :
    (p : ModbusPort) (unit offset value : ℕ)
    → Writes p unit offset value
    → p.register_addr ≡ 4000 + 4 * unit + offset
register-eq p unit offset value s = omega (arith, s.above, s.at_unit, s.at_offset)

word_in-eq :
    (buf : List ℕ) (v : ℕ) → get_or buf 0 0 * 256 + get_or buf 1 0 ≡ v → v < 256 → word_in buf ≡ v
word_in-eq buf v e small =
    let high : get_or buf 0 0 ≡ 0 = omega arith in
    let low : get_or buf 1 0 ≡ v = omega arith in
    ap₂ (λ h l. bit_or (h * 256) l) high low ∙ bit_or-bitwise 0 v

module _ {W : Type 0} (lib : LibModbus W) (wrapped fuel : ℕ) where
  -- The step that follows a single write.
  Writes-step :
      (m : Message) (unit offset value n : ℕ)
      → Writes m.port unit offset value
      → value < 256
      → step_of lib m.port.code m.port.register_addr (pos n) (word_in m.port.buffer)
        ≡ writes (keeping (λ b. lib.write_register (4000 + 4 * unit + offset) value)) (pos 1)
  unfolding step_of
  Writes-step m unit offset value n s small =
      ap (λ c. step_of lib c m.port.register_addr (pos n) (word_in m.port.buffer)) s.code
      ∙ ap₂ (λ r v. writes (keeping (λ b. lib.write_register r v)) (pos 1))
          (register-eq m.port unit offset value s) (word_in-eq m.port.buffer value s.word small)

  -- With a buffer of two bytes or more, at least one transmission, and fuel for all of them, a
  -- message of a temperature from 18 to 30 degrees for one of the 128 air conditioners ends: the
  -- worker sets the slave 2, and writes that temperature (19 for 18) to the register 1 of the air
  -- conditioner's four from 4000 on, again and again until one write succeeds or the transmissions
  -- are used up.
  pub modbus_work-temperature :
      (recv : Option (Handler W)) (block : List ℕ) (mtu : ℕ) (old : Message) (w : W)
      → old.port.device_addr ≤ 127
      → 2 ≤ length block
      → 18 ≤ old.port.method
      → old.port.method ≤ 30
      → 1 ≤ old.retransmission
      → old.retransmission ≤ fuel
      → let t = if old.port.method == 18 then 19 else old.port.method in
        let h : Handle W = record {
          message = old;
          send_handle = some hitachi_send;
          recv_handle = recv;
        } in
        (o : Outcome W) × (m : Message) × (buffer : List ℕ) × (modbus_work lib wrapped fuel block
            mtu h w
          ≡ some (m, o.3))
        × Attempted
            (keeping (λ b. lib.write_register (4000 + 4 * old.port.device_addr + 1) t))
            (pos 1)
            old.retransmission
            (buffer, lib.set_slave 2 w)
            o
  modbus_work-temperature recv block mtu old w near room low high some_call enough =
      let h : Handle W = record {
        message = old;
        send_handle = some hitachi_send;
        recv_handle = recv;
      } in
      let m : Message = opened block mtu h in
      let t = if old.port.method == 18 then 19 else old.port.method in
      let (p, sent, s) =
        hitachi_vrv_manager_send_package_handle-temperature m.port near room low high in
      let m' : Message = record m { port = p } in
      let (o, ran, a) =
        packaged-writes lib wrapped fuel m' w 1 recv
          (keeping (λ b. lib.write_register (4000 + 4 * old.port.device_addr + 1) t)) (pos 1)
          (Writes-step m' old.port.device_addr 1 t 1 s (ground arith)) some_call enough in
      (
        o,
        retried m' o.1 o.2,
        p.buffer,
        modbus_work-packaged lib wrapped fuel hitachi_send recv block mtu old w (retried m' o.1 o.2)
            o.3 (ap (λ r. packaged lib wrapped fuel recv (r.0, put_port m r.1, w)) sent ∙ ran) refl,
        subst
            (λ d.
              Attempted (keeping (λ b. lib.write_register (4000 + 4 * old.port.device_addr + 1) t))
                (pos 1) old.retransmission (p.buffer, lib.set_slave d w) o)
            s.slave a,
      )
