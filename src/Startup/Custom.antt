-- ===== src/Startup/Custom.antt =====
-- The custom bus as a bus of the core: its probe and its remove with the `priv_data` of each bus.
use rs.Prelude.{
  ℕ, ◌≡◌, refl, ap, ◌∙◌, ◌⊎◌, inl, inr, Bool, true, false, Option, none, some, ℤ, is_nonzero, arith,
}
use rs.Bus.{put}
use rs.Core.{Host, probed, removed}
use rs.Core.Register.{IsTidy}
use rs.Core.Names.{put_at}
use rs.Custom.Interface.{InterfaceProfile}
use rs.Custom.Probe.{
  PortOs, IsTidyOs, Balanced, custom_bus_probe, custom_bus_remove, custom_bus_probe-Balanced,
}
use rs.Startup.{Process, custom_name, custom_init}
use rs.Startup.Bus.{Started, Failed, custom_init-Started}

-- The operating system, and the `priv_data` of the buses, of which nothing is a NULL pointer.
pub record CustomWorld (W : Type 0) : Type 0 where
  pub system : W
  pub priv_data : ℕ → Option ℤ

abbrev pub system_of : {W : Type 0} → CustomWorld W → W
system_of w = w.system

module _ {W : Type 0} (os : PortOs W) (pthread_create : W → ℤ × W) (pthread_cancel : W → W)
    (interface : ℕ → InterfaceProfile) where
  -- `bus->priv_data = stack;` where there is one.
  pub store_data : ℕ → ℤ × Option ℤ × W → CustomWorld W → ℤ × CustomWorld W
  store_data b (retval, none, w) c = (retval, record c { system = w })
  store_data b (retval, some stack, w) c =
      (retval, record c { system = w; priv_data = put c.priv_data b (some stack) })

  pub probe_bus : ℕ → CustomWorld W → ℤ × CustomWorld W
  probe_bus b c = store_data b (custom_bus_probe os (some (interface b)) c.system) c

  pub remove_bus : ℕ → CustomWorld W → CustomWorld W
  remove_bus b c = record c { system = custom_bus_remove os (c.priv_data b) c.system }

  abbrev pub lifted : ℤ × W → CustomWorld W → ℤ × CustomWorld W
  lifted (status, w) c = (status, record c { system = w })

  -- The callbacks of `custom`, with the thread of custom_stack_handle.
  abbrev pub custom_host : Host (CustomWorld W)
  custom_host = record {
    probe = λ b. some (probe_bus b);
    remove = λ b. some (remove_bus b);
    has_pthread_func = λ b. true;
    pthread_create = λ b c. lifted (pthread_create c.system) c;
    pthread_cancel = λ b c. record c { system = pthread_cancel c.system };
  }

  store_data-system :
      (b : ℕ) (c : CustomWorld W) (r : ℤ × Option ℤ × W)
      → ((store_data b r c).0 ≡ r.0) × ((store_data b r c).1.system ≡ r.2)
  unfolding store_data
  store_data-system b c (retval, none, w) = (refl, refl)
  store_data-system b c (retval, some stack, w) = (refl, refl)

  store_data-stack :
      (b : ℕ) (c : CustomWorld W) (r : ℤ × Option ℤ × W) (fd : ℤ)
      → r.1 ≡ some fd
      → (store_data b r c).1.priv_data b ≡ some fd
  unfolding store_data
  store_data-stack b c (retval, none, w) fd e = absurd (ground (arith, e))
  store_data-stack b c (retval, some stack, w) fd e = put_at c.priv_data b (some stack) ∙ e

  probe_fails :
      (b : ℕ) (c : CustomWorld W) (r : ℤ × Option ℤ × W)
      → Balanced os c.system r
      → is_nonzero (store_data b r c).0 ≡ true
      → (store_data b r c).1.system ≡ c.system
  probe_fails b c r (inr (fails, same)) bad = (store_data-system b c r).1 ∙ same
  probe_fails b c r (inl (fd, good, stack, back)) bad =
      absurd (ground (arith, ap is_nonzero ((store_data-system b c r).0 ∙ good), bad))

  probe_undone :
      (b : ℕ) (c : CustomWorld W) (r : ℤ × Option ℤ × W)
      → Balanced os c.system r
      → is_nonzero (store_data b r c).0 ≡ false
      → (remove_bus b (store_data b r c).1).system ≡ c.system
  unfolding remove_bus
  probe_undone b c r (inr (fails, same)) good =
      absurd (ground (arith, ap is_nonzero (store_data-system b c r).0, fails, good))
  probe_undone b c r (inl (fd, zero_result, stack, back)) good =
      ap (λ p. custom_bus_remove os p (store_data b r c).1.system) (store_data-stack b c r fd stack)
      ∙ ap (custom_bus_remove os (some fd)) (store_data-system b c r).1
      ∙ back

  -- The thread's calls: what fails leaves nothing, and the end takes back the start.
  pub record IsTidyThread : Type 0 where
    pub failed : (w : W) → is_nonzero (pthread_create w).0 ≡ true → (pthread_create w).1 ≡ w
    pub undone :
        (w : W) → is_nonzero (pthread_create w).0 ≡ false → pthread_cancel (pthread_create w).1 ≡ w

  module _ (tidy : IsTidyOs os) (thread : IsTidyThread) where
    custom_host-IsTidy : (b : ℕ) → IsTidy system_of custom_host b
    unfolding probed removed probe_bus
    custom_host-IsTidy b = record {
      failed_probe = λ c.
          probe_fails b c (custom_bus_probe os (some (interface b)) c.system)
            (custom_bus_probe-Balanced os tidy (some (interface b)) c.system);
      undo_probe = λ c.
          probe_undone b c (custom_bus_probe os (some (interface b)) c.system)
            (custom_bus_probe-Balanced os tidy (some (interface b)) c.system);
      failed_create = λ c e. ap (λ w. record c { system = w }) (thread.failed c.system e);
      undo_create = λ c e. ap (λ w. record c { system = w }) (thread.undone c.system e);
    }

    -- On a system whose calls can be taken back, custom_init of a new bus with the block `b` puts it
    -- on the list, where "custom-" and its port find it, and custom_exit then closes the port, ends
    -- the thread and frees the bus and all that it has taken; or its result is not 0, the bus is freed
    -- and it has left nothing behind.
    pub custom_init-custom_host :
        (memory : Bool) (b : ℕ) (s : Process (CustomWorld W))
        → let r =
            custom_init custom_host memory (some b) (some (interface b)) (some custom_name) s in
          Started system_of custom_host memory b (interface b) s r
          ⊎ Failed system_of custom_host memory b (interface b) s r
    custom_init-custom_host memory b s =
        custom_init-Started system_of custom_host memory b (interface b) s (custom_host-IsTidy b)
          refl
