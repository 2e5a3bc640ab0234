-- ===== src/Startup/Bus.antt =====
-- What custom_init makes, and what custom_exit takes back.
use rs.Prelude.{
  ℕ, ◌≡◌, refl, subst, sym, ap, ◌∙◌, ◌⊎◌, inl, inr, Bool, true, false, some, List, ◌∷◌,
  if◌then◌else◌, ℤ, pos, is_nonzero, arith,
}
use rs.Core.{
  Host, Core, rs485_bus_register, rs485_bus_unregister, rs485_bus_match_by_name, init_name_of,
}
use rs.Core.Register.{
  IsTidy, Unchanged, Registered, rs485_bus_register-Outcome, same_string_self, is_name_self,
}
use rs.Core.Names.{put_at, rs485_bus_register-init_name, rs485_bus_register-name}
use rs.Custom.Interface.{InterfaceProfile}
use rs.Startup.{
  custom_name, fresh_bus, Process, free_block, after_bus_register, with_bus, custom_init,
  custom_exit,
}

module _ {W V : Type 0} (seen : W → V) (host : Host W) (memory : Bool) (b : ℕ)
    (i : InterfaceProfile) where
  -- The call has put the new bus on the list, and holds its block; custom_exit gives all back.
  pub record Started (s : Process W) (r : ℤ × Process W) : Type 0 where
    pub result : r.0 ≡ pos 0
    pub block : r.1.blocks ≡ b ∷ s.blocks
    pub listed : r.1.core.rs485_bus_list ≡ b ∷ s.core.rs485_bus_list
    pub found :
        rs485_bus_match_by_name
          (init_name_of custom_name i.port_name)
          r.1.core
          r.1.core.rs485_bus_list
        ≡ some b
    pub exit :
        Unchanged seen (fresh_bus b i.port_name s.core) (custom_exit host (some b) r.1).1.core
    pub exit_block : (custom_exit host (some b) r.1).1.blocks ≡ s.blocks
    pub exit_result : (custom_exit host (some b) r.1).0 ≡ pos 0

  -- The call has failed, and has left nothing.
  pub record Failed (s : Process W) (r : ℤ × Process W) : Type 0 where
    pub result : is_nonzero r.0 ≡ true
    pub block : r.1.blocks ≡ s.blocks
    pub unchanged : Unchanged seen (fresh_bus b i.port_name s.core) r.1.core

  fresh_free : (s : Core W) → (fresh_bus b i.port_name s).allocated b ≡ false
  unfolding fresh_bus
  fresh_free s = put_at s.allocated b false

  fresh_list : (s : Core W) → (fresh_bus b i.port_name s).rs485_bus_list ≡ s.rs485_bus_list
  unfolding fresh_bus
  fresh_list s = refl

  freed_first : (blocks : List ℕ) → free_block b (b ∷ blocks) ≡ blocks
  unfolding free_block
  freed_first blocks = ground arith

  abbrev registered : Core W → ℤ × Core W
  registered s = rs485_bus_register host memory (some b) (fresh_bus b i.port_name s)

  custom_init_body :
      (s : Process W)
      → custom_init host memory (some b) (some i) (some custom_name) s
        ≡ after_bus_register b (b ∷ s.blocks) (registered s.core)
  unfolding custom_init with_bus
  custom_init_body s = rw (same_string_self custom_name) refl

  named : (s : Core W) → (registered s).1.name b ≡ some custom_name
  unfolding fresh_bus
  named s =
      ap (λ f. f b)
        (rs485_bus_register-name host b memory (fresh_bus b i.port_name s) custom_name i.port_name
          (put_at s.name b (some custom_name)) (put_at s.port_name b (some i.port_name)))
      ∙ put_at s.name b (some custom_name)

  init_named : (s : Core W) → (registered s).1.init_name b ≡ init_name_of custom_name i.port_name
  unfolding fresh_bus
  init_named s =
      rs485_bus_register-init_name host b memory (fresh_bus b i.port_name s) custom_name i.port_name
        (put_at s.name b (some custom_name)) (put_at s.port_name b (some i.port_name))

  exits :
      (s : Process W)
      → s.core.name b ≡ some custom_name
      → custom_exit host (some b) s ≡ (
        pos 0,
        record { core = rs485_bus_unregister host (some b) s.core; blocks = free_block b s.blocks },
      )
  unfolding custom_exit
  exits s e = rw e (rw (is_name_self custom_name) refl)

  good_register :
      (blocks : List ℕ) (q : ℤ × Core W)
      → q.0 ≡ pos 0
      → after_bus_register b blocks q ≡ (pos 0, record { core = q.1; blocks = blocks })
  unfolding after_bus_register
  good_register blocks q e =
      ap
        (λ n.
          if is_nonzero n
          then (n, record { core = q.1; blocks = free_block b blocks })
          else (pos 0, record { core = q.1; blocks = blocks }))
        e

  bad_register :
      (blocks : List ℕ) (q : ℤ × Core W)
      → is_nonzero q.0 ≡ true
      → after_bus_register b blocks q ≡ (q.0, record { core = q.1; blocks = free_block b blocks })
  unfolding after_bus_register
  bad_register blocks q e =
      ap
        (λ f.
          if f
          then (q.0, record { core = q.1; blocks = free_block b blocks })
          else (pos 0, record { core = q.1; blocks = blocks }))
        e

  register-Started :
      (s : Process W) (r : ℤ × Process W)
      → r ≡ after_bus_register b (b ∷ s.blocks) (registered s.core)
      → (registered s.core).0 ≡ pos 0
      → Registered seen host (fresh_bus b i.port_name s.core) b (registered s.core).1
      → Started s r
  register-Started s r e zero_result reg =
      let q = registered s.core in
      let t : Process W = record { core = q.1; blocks = b ∷ s.blocks } in
      subst (Started s) (sym (e ∙ good_register (b ∷ s.blocks) q zero_result)) (record {
        result = refl;
        block = refl;
        listed = reg.listed ∙ ap (λ l. b ∷ l) (fresh_list s.core);
        found =
            ap (λ n. rs485_bus_match_by_name n q.1 q.1.rs485_bus_list) (sym (init_named s.core))
            ∙ reg.found;
        exit =
            subst (Unchanged seen (fresh_bus b i.port_name s.core))
              (sym (ap (λ p. p.1.core) (exits t (named s.core)))) reg.undone;
        exit_block = ap (λ p. p.1.blocks) (exits t (named s.core)) ∙ freed_first s.blocks;
        exit_result = ap (λ p. p.0) (exits t (named s.core));
      })

  register-Failed :
      (s : Process W) (r : ℤ × Process W)
      → r ≡ after_bus_register b (b ∷ s.blocks) (registered s.core)
      → is_nonzero (registered s.core).0 ≡ true
      → Unchanged seen (fresh_bus b i.port_name s.core) (registered s.core).1
      → Failed s r
  register-Failed s r e fails same =
      subst (Failed s) (sym (e ∙ bad_register (b ∷ s.blocks) (registered s.core) fails))
        (record { result = fails; block = freed_first s.blocks; unchanged = same })

  -- With callbacks that are tidy and a function for the thread: custom_init of a new bus returns 0,
  -- the bus is on the list, found by "custom-" and its port, and custom_exit takes everything back
  -- and frees the bus; or its result is not 0, the bus is freed, and the list, the system buses and
  -- the world are as before.
  pub custom_init-Started :
      (s : Process W)
      → IsTidy seen host b
      → host.has_pthread_func b ≡ true
      → let r = custom_init host memory (some b) (some i) (some custom_name) s in
        Started s r ⊎ Failed s r
  custom_init-Started s tidy thread =
      elim (rs485_bus_register-Outcome seen host memory b (fresh_bus b i.port_name s.core) tidy
        (fresh_free s.core)) [
          | inl (zero_result, reg) ↦ inl (register-Started s _ (custom_init_body s) zero_result reg)
          | inr (same, inl fails) ↦ inr (register-Failed s _ (custom_init_body s) fails same)
          | inr (same, inr without) ↦ absurd (ground (arith, thread, without))
        ]
