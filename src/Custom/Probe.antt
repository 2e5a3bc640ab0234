-- ===== src/Custom/Probe.antt =====
-- The start and the end of the custom bus, custom_bus_probe and custom_bus_remove of
-- app/rs485d/src/protocol/custom/custom.c, with interface_initialize and interface_cleanup of
-- app/rs485d/src/protocol/custom/interface.c.
use rs.Prelude.{
  ℕ, ◌≡◌, refl, ap, ◌∙◌, ◌⊎◌, inl, inr, Bool, true, false, Option, none, some, List, ℤ, pos,
  neg_einval, neg_enomem, is_neg, is_nonzero, arith, Bool-cases, if◌then◌else◌,
}
use rs.Custom.Interface.{InterfaceProfile, Cflag, parse_c_cflag}

-- calloc, with whether it succeeds, and free; the semaphore; open, the calls that save the port's
-- settings and set its flags, those that restore them, and close.
pub record PortOs (W : Type 0) : Type 0 where
  pub calloc : W → Bool × W
  pub free : W → W
  pub sem_init : W → ℤ × W
  pub sem_destroy : W → W
  pub open_port : List ℕ → W → ℤ × W
  pub configure : ℤ → Cflag → W → W
  pub restore : ℤ → W → W
  pub close_port : ℤ → W → W

module _ {W : Type 0} (os : PortOs W) where
  -- After `open` in `interface_initialize`.
  pub opened : InterfaceProfile → ℤ × W → ℤ × ℤ × W
  opened profile (fd, w) =
      if is_neg fd then (fd, fd, w) else (pos 0, fd, os.configure fd (parse_c_cflag profile) w)

  -- `interface_initialize(fd, interface)` on an interface: the result, `*fd` and the world.
  pub interface_initialize : InterfaceProfile → W → ℤ × ℤ × W
  interface_initialize profile w = opened profile (os.open_port profile.port_name w)

  -- `interface_cleanup(fd)`
  pub interface_cleanup : ℤ → W → W
  interface_cleanup fd w = os.close_port fd (os.restore fd w)

  -- After `interface_initialize`: `priv_data`, or the label `interface_init_fail`. The stack is its
  -- file descriptor.
  pub after_interface : ℤ × ℤ × W → ℤ × Option ℤ × W
  after_interface (retval, fd, w) =
      if is_nonzero retval then (retval, none, os.free (os.sem_destroy w)) else (pos 0, some fd, w)

  -- After `sem_init`, with the label `sem_init_fail`.
  pub after_sem : InterfaceProfile → ℤ × W → ℤ × Option ℤ × W
  after_sem profile (retval, w) =
      if is_nonzero retval
      then (retval, none, os.free w)
      else after_interface (interface_initialize profile w)

  -- After `calloc`.
  pub after_calloc : InterfaceProfile → Bool × W → ℤ × Option ℤ × W
  after_calloc profile (false, w) = (neg_enomem, none, w)
  after_calloc profile (true, w) = after_sem profile (os.sem_init w)

  -- `custom_bus_probe(bus)`, `none` for NULL: the result, the `priv_data` it stores, and the world.
  pub custom_bus_probe : Option InterfaceProfile → W → ℤ × Option ℤ × W
  custom_bus_probe none w = (neg_einval, none, w)
  custom_bus_probe (some profile) w = after_calloc profile (os.calloc w)

  -- `custom_bus_remove(bus)`, on the `priv_data`.
  pub custom_bus_remove : Option ℤ → W → W
  custom_bus_remove none w = w
  custom_bus_remove (some fd) w = os.free (os.sem_destroy (interface_cleanup fd w))

  -- A call that fails leaves nothing behind, and every call has one that takes it back.
  pub record IsTidyOs : Type 0 where
    pub no_memory : (w : W) → (os.calloc w).0 ≡ false → (os.calloc w).1 ≡ w
    pub memory : (w : W) → (os.calloc w).0 ≡ true → os.free (os.calloc w).1 ≡ w
    pub no_sem : (w : W) → is_nonzero (os.sem_init w).0 ≡ true → (os.sem_init w).1 ≡ w
    pub sem : (w : W) → is_nonzero (os.sem_init w).0 ≡ false → os.sem_destroy (os.sem_init w).1 ≡ w
    pub no_port :
        (name : List ℕ) (w : W)
        → is_neg (os.open_port name w).0 ≡ true
        → (os.open_port name w).1 ≡ w
    pub port :
        (name : List ℕ) (flags : Cflag) (w : W)
        → is_neg (os.open_port name w).0 ≡ false
        → let (fd, w') = os.open_port name w in
          os.close_port fd (os.restore fd (os.configure fd flags w')) ≡ w

  -- The result is 0, the bus has a stack, and `custom_bus_remove` brings the world back; or the
  -- result is not 0 and the world is as before.
  abbrev pub Balanced : W → ℤ × Option ℤ × W → Type 0
  Balanced w r =
      ((fd : ℤ) × (r.0 ≡ pos 0) × (r.1 ≡ some fd) × (custom_bus_remove (some fd) r.2 ≡ w))
      ⊎ ((is_nonzero r.0 ≡ true) × (r.2 ≡ w))

  nonzero_neg : (x : ℤ) → is_neg x ≡ true → is_nonzero x ≡ true
  nonzero_neg x e = ground arith

  module _ (tidy : IsTidyOs) where
    after_interface-Balanced :
        (profile : InterfaceProfile) (w w0 : W)
        → os.free (os.sem_destroy w) ≡ w0
        → Balanced w0 (after_interface (interface_initialize profile w))
    unfolding after_interface interface_initialize opened custom_bus_remove interface_cleanup
    after_interface-Balanced profile w w0 back =
        elim (Bool-cases (is_neg (os.open_port profile.port_name w).0)) [
          | inl fails ↦ rw fails (
              rw (nonzero_neg (os.open_port profile.port_name w).0 fails) (
                inr (
                  nonzero_neg (os.open_port profile.port_name w).0 fails,
                  ap (λ v. os.free (os.sem_destroy v)) (tidy.no_port profile.port_name w fails)
                      ∙ back,
                )))
          | inr opens ↦ rw opens (
              inl (
                (os.open_port profile.port_name w).0,
                refl,
                refl,
                ap (λ v. os.free (os.sem_destroy v))
                      (tidy.port profile.port_name (parse_c_cflag profile) w opens)
                    ∙ back,
              ))
        ]

    after_sem-Balanced :
        (profile : InterfaceProfile) (w w0 : W)
        → os.free w ≡ w0
        → Balanced w0 (after_sem profile (os.sem_init w))
    unfolding after_sem
    after_sem-Balanced profile w w0 back = elim (Bool-cases (is_nonzero (os.sem_init w).0)) [
      | inl fails ↦ rw fails (inr (fails, ap os.free (tidy.no_sem w fails) ∙ back))
      | inr runs ↦ rw runs (
          after_interface-Balanced profile (os.sem_init w).1 w0
            (ap os.free (tidy.sem w runs) ∙ back))
    ]

    after_calloc-Balanced :
        (profile : InterfaceProfile) (w : W) (ok : Bool)
        → (os.calloc w).0 ≡ ok
        → Balanced w (after_calloc profile (ok, (os.calloc w).1))
    unfolding after_calloc
    after_calloc-Balanced profile w false e = inr (refl, tidy.no_memory w e)
    after_calloc-Balanced profile w true e =
        after_sem-Balanced profile (os.calloc w).1 w (tidy.memory w e)

    -- On a system whose calls can be taken back, the probe of a bus returns 0 and the remove brings
    -- back the world before the probe, or its result is not 0 and it has left nothing behind.
    pub custom_bus_probe-Balanced :
        (bus : Option InterfaceProfile) (w : W) → Balanced w (custom_bus_probe bus w)
    unfolding custom_bus_probe
    custom_bus_probe-Balanced none w = inr (refl, refl)
    custom_bus_probe-Balanced (some profile) w =
        after_calloc-Balanced profile w (os.calloc w).0 refl
