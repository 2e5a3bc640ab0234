-- ===== src/Core/Names.antt =====
-- The name that a bus is registered under.
use rs.Prelude.{ℕ, ◌≡◌, ap, ◌∙◌, refl, Bool, some, List, Bool-cases, inl, inr, arith}
use rs.Bus.{put}
use rs.Core.{Host, Core, is_rs485_bus_used, init_name_of, probed, with_names, rs485_bus_register}
use rs.Core.Ports.{after_probe-Grows}

pub put_at : {A : Type 0} (f : ℕ → A) (b : ℕ) (x : A) → put f b x b ≡ x
put_at f b x = ground arith

module _ {W : Type 0} (host : Host W) (b : ℕ) where
  with_names-init_name :
      (memory : Bool) (s : Core W) (name port : List ℕ)
      → (with_names host memory b (some name) (some port) s).1.init_name b ≡ init_name_of name port
  unfolding with_names
  with_names-init_name memory s name port =
      elim (Bool-cases (is_rs485_bus_used port s' s'.rs485_bus_list)) [
        | inl used ↦ rw used (put_at s.init_name b (init_name_of name port))
        | inr unused ↦ rw unused (
            ap (λ f. f b)
              (after_probe-Grows host b memory s' s' (probed (host.probe b) s'.world) refl refl refl
                refl).named
            ∙ put_at s.init_name b (init_name_of name port))
      ]
    where
      s' : Core W
      s' = record s { init_name = put s.init_name b (init_name_of name port) }

  with_names-name :
      (memory : Bool) (s : Core W) (name port : List ℕ)
      → (with_names host memory b (some name) (some port) s).1.name ≡ s.name
  unfolding with_names
  with_names-name memory s name port =
      elim (Bool-cases (is_rs485_bus_used port s' s'.rs485_bus_list)) [
        | inl used ↦ rw used refl
        | inr unused ↦ rw unused (
            (after_probe-Grows host b memory s' s' (probed (host.probe b) s'.world) refl refl refl
              refl).called)
      ]
    where
      s' : Core W
      s' = record s { init_name = put s.init_name b (init_name_of name port) }

  -- A registration, whatever it gives, leaves the bus with the init_name of its name and its port.
  pub rs485_bus_register-init_name :
      (memory : Bool) (s : Core W) (name port : List ℕ)
      → s.name b ≡ some name
      → s.port_name b ≡ some port
      → (rs485_bus_register host memory (some b) s).1.init_name b ≡ init_name_of name port
  unfolding rs485_bus_register
  rs485_bus_register-init_name memory s name port called at =
      rw called (rw at (with_names-init_name memory s name port))

  pub rs485_bus_register-name :
      (memory : Bool) (s : Core W) (name port : List ℕ)
      → s.name b ≡ some name
      → s.port_name b ≡ some port
      → (rs485_bus_register host memory (some b) s).1.name ≡ s.name
  unfolding rs485_bus_register
  rs485_bus_register-name memory s name port called at =
      rw called (rw at (with_names-name memory s name port))
