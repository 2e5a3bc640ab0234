-- ===== src/Core/Register.antt =====
-- What rs485_bus_register leaves behind, on every branch, and what rs485_bus_unregister takes back.
use rs.Prelude.{
  ℕ, ◌≡◌, ◌≢◌, ◌⊎◌, inl, inr, refl, ap, ◌∙◌, Bool, true, false, Option, none, some, List, [], ◌∷◌,
  arith, ℤ, pos, is_nonzero, ◌==◌, if◌then◌else◌, Bool-cases,
}
use rs.Bus.{put, wlist_del}
use rs.Bus.Lookup.{wlist_del-first}
use rs.Core.{
  Host, Core, is_rs485_bus_used, rs485_bus_match_by_name, same_string, is_name, init_name_of,
  bus_register, bus_unregister, removed, probed, sysbus_register_fail, after_thread, after_register,
  after_probe, with_names, rs485_bus_register, rs485_bus_unregister,
}

pub same_string_self : (a : List ℕ) → same_string a a ≡ true
unfolding same_string
same_string_self [] = refl
same_string_self (x ∷ a) = ground (arith, same_string_self a)

pub is_name_self : (a : List ℕ) → is_name a (some a) ≡ true
unfolding is_name
is_name_self a = same_string_self a

module _ {W : Type 0} (b : ℕ) where
  unregister-others :
      (s s' : Core W)
      → s.allocated b ≡ false
      → ((c : ℕ) → c ≢ b → s'.allocated c ≡ s.allocated c)
      → (c : ℕ) → put s'.allocated b false c ≡ s.allocated c
  unregister-others s s' free others c = elim (Bool-cases (c == b)) [
    | inl same ↦ ground (arith, free)
    | inr apart ↦ ground (arith, others c)
  ]

  match-first :
      (s : Core W) (rest : List ℕ) → rs485_bus_match_by_name (s.init_name b) s (b ∷ rest) ≡ some b
  unfolding rs485_bus_match_by_name
  match-first s rest = rw (same_string_self (s.init_name b)) refl

  put-others : (s : Core W) (c : ℕ) → c ≢ b → put s.allocated b true c ≡ s.allocated c
  put-others s c apart = ground (arith, apart)

  put_self : (s : Core W) → put s.allocated b true b ≡ true
  put_self s = ground arith

module _ {W V : Type 0} (seen : W → V) where
  -- As far as it is seen: what fails leaves nothing behind, and `remove` takes back what the probe has
  -- done; and the thread, if it does not start, leaves nothing, and its end takes back its start.
  pub record IsTidy (host : Host W) (b : ℕ) : Type 0 where
    pub failed_probe :
        (w : W)
        → is_nonzero (probed (host.probe b) w).0 ≡ true
        → seen (probed (host.probe b) w).1 ≡ seen w
    pub undo_probe :
        (w : W)
        → is_nonzero (probed (host.probe b) w).0 ≡ false
        → seen (removed (host.remove b) (probed (host.probe b) w).1) ≡ seen w
    pub failed_create :
        (w : W) → is_nonzero (host.pthread_create b w).0 ≡ true → (host.pthread_create b w).1 ≡ w
    pub undo_create :
        (w : W)
        → is_nonzero (host.pthread_create b w).0 ≡ false
        → host.pthread_cancel b (host.pthread_create b w).1 ≡ w

  -- The list, the system buses and what is seen of the world are as before.
  pub record Unchanged (s s' : Core W) : Type 0 where
    pub list : s'.rs485_bus_list ≡ s.rs485_bus_list
    pub systems : (c : ℕ) → s'.allocated c ≡ s.allocated c
    pub world : seen s'.world ≡ seen s.world

  -- The bus is the first of the list, its system bus is allocated, its init_name finds it, and the
  -- unregistration takes everything back.
  pub record Registered (host : Host W) (s : Core W) (b : ℕ) (s' : Core W) : Type 0 where
    pub listed : s'.rs485_bus_list ≡ b ∷ s.rs485_bus_list
    pub has_system : s'.allocated b ≡ true
    pub others : (c : ℕ) → c ≢ b → s'.allocated c ≡ s.allocated c
    pub found : rs485_bus_match_by_name (s'.init_name b) s' s'.rs485_bus_list ≡ some b
    pub undone : Unchanged s (rs485_bus_unregister host (some b) s')

  abbrev pub Outcome : Host W → Core W → ℕ → ℤ × Core W → Type 0
  Outcome host s b r =
      ((r.0 ≡ pos 0) × Registered host s b r.1)
      ⊎ (Unchanged s r.1 × ((is_nonzero r.0 ≡ true) ⊎ (host.has_pthread_func b ≡ false)))

  module _ (b : ℕ) where
    unregistered :
        (host : Host W) (s s' : Core W)
        → s.allocated b ≡ false
        → s'.rs485_bus_list ≡ b ∷ s.rs485_bus_list
        → ((c : ℕ) → c ≢ b → s'.allocated c ≡ s.allocated c)
        → seen (removed (host.remove b) (host.pthread_cancel b s'.world)) ≡ seen s.world
        → Unchanged s (rs485_bus_unregister host (some b) s')
    unfolding rs485_bus_unregister sysbus_register_fail bus_unregister
    unregistered host s s' free listed others world = record {
      list = ap (wlist_del b) listed ∙ wlist_del-first b s.rs485_bus_list;
      systems = unregister-others b s s' free others;
      world = world;
    }

  module _ (host : Host W) (b : ℕ) (tidy : IsTidy host b) where
    -- After `bus_register`, with the world that the probe has left.
    record Prepared (s s' : Core W) : Type 0 where
      list : s'.rs485_bus_list ≡ s.rs485_bus_list
      has_system : s'.allocated b ≡ true
      others : (c : ℕ) → c ≢ b → s'.allocated c ≡ s.allocated c
      world : seen (removed (host.remove b) s'.world) ≡ seen s.world

    after_thread-Outcome :
        (s s' : Core W)
        → s.allocated b ≡ false
        → Prepared s s'
        → Outcome host s b (after_thread host b s' (host.pthread_create b s'.world))
    unfolding after_thread sysbus_register_fail bus_unregister
    after_thread-Outcome s s' free p =
        elim (Bool-cases (is_nonzero (host.pthread_create b s'.world).0)) [
          | inl fails ↦ rw fails (
              inr (
                record {
                  list = p.list;
                  systems = unregister-others b s s' free p.others;
                  world =
                      ap (λ w. seen (removed (host.remove b) w)) (tidy.failed_create s'.world fails)
                      ∙ p.world;
                },
                inl fails,
              ))
          | inr runs ↦ rw runs (
              inl (
                refl,
                record {
                  listed = ap (λ l. b ∷ l) p.list;
                  has_system = p.has_system;
                  undone =
                      unregistered b host s
                        (record s' {
                          world = (host.pthread_create b s'.world).1;
                          rs485_bus_list = b ∷ s'.rs485_bus_list;
                        })
                        free (ap (λ l. b ∷ l) p.list) p.others
                        (ap (λ w. seen (removed (host.remove b) w)) (tidy.undo_create s'.world runs)
                          ∙ p.world);
                  others = p.others;
                  found =
                      match-first b
                        (record s' {
                          world = (host.pthread_create b s'.world).1;
                          rs485_bus_list = b ∷ s'.rs485_bus_list;
                        })
                        s'.rs485_bus_list;
                },
              ))
        ]

    after_register-Outcome :
        (memory : Bool) (s s' : Core W)
        → s.allocated b ≡ false
        → s'.rs485_bus_list ≡ s.rs485_bus_list
        → s'.allocated ≡ s.allocated
        → seen (removed (host.remove b) s'.world) ≡ seen s.world
        → Outcome host s b (after_register host b (bus_register memory b s'))
    unfolding after_register bus_register sysbus_register_fail bus_unregister
    after_register-Outcome false s s' free list systems world =
        inr (record { list = list; systems = λ c. ap (λ f. f c) systems; world = world }, inl refl)
    after_register-Outcome true s s' free list systems world = thread (host.has_pthread_func b) refl
      where
        p : Prepared s (bus_register true b s').1
        p = record {
          list = list;
          has_system = put_self b s';
          others = λ c apart. put-others b s' c apart ∙ ap (λ f. f c) systems;
          world = world;
        }

        thread :
            (starts : Bool)
            → host.has_pthread_func b ≡ starts
            → Outcome host s b (
                if starts
                then after_thread host b (bus_register true b s').1 (host.pthread_create b s'.world)
                else (
                  pos 0,
                  sysbus_register_fail host b (bus_unregister b (bus_register true b s').1),
                ))
        thread true starts = after_thread-Outcome s (bus_register true b s').1 free p
        thread false without = inr (
          record {
            list = list;
            systems = unregister-others b s (bus_register true b s').1 free p.others;
            world = world;
          },
          inr without,
        )

    after_probe-Outcome :
        (memory : Bool) (s s' : Core W)
        → s.allocated b ≡ false
        → s'.rs485_bus_list ≡ s.rs485_bus_list
        → s'.allocated ≡ s.allocated
        → s'.world ≡ s.world
        → Outcome host s b (after_probe host memory b s' (probed (host.probe b) s'.world))
    unfolding after_probe
    after_probe-Outcome memory s s' free list systems world =
        elim (Bool-cases (is_nonzero (probed (host.probe b) s'.world).0)) [
          | inl fails ↦ rw fails (
              inr (
                record {
                  list = list;
                  systems = λ c. ap (λ f. f c) systems;
                  world = tidy.failed_probe s'.world fails ∙ ap seen world;
                },
                inl fails,
              ))
          | inr opens ↦ rw opens (
              after_register-Outcome memory s
                (record s' { world = (probed (host.probe b) s'.world).1 }) free list systems
                (tidy.undo_probe s'.world opens ∙ ap seen world))
        ]

    with_names-Outcome :
        (memory : Bool) (s : Core W) (name port_name : Option (List ℕ))
        → s.allocated b ≡ false
        → Outcome host s b (with_names host memory b name port_name s)
    unfolding with_names
    with_names-Outcome memory s none port_name free =
        inr (record { list = refl; systems = λ c. refl; world = refl }, inl refl)
    with_names-Outcome memory s (some name) none free =
        inr (record { list = refl; systems = λ c. refl; world = refl }, inl refl)
    with_names-Outcome memory s (some name) (some port_name) free =
        elim (Bool-cases (is_rs485_bus_used port_name s' s'.rs485_bus_list)) [
          | inl used ↦
              rw used (inr (record { list = refl; systems = λ c. refl; world = refl }, inl refl))
          | inr unused ↦ rw unused (after_probe-Outcome memory s s' free refl refl refl)
        ]
      where
        s' : Core W
        s' = record s { init_name = put s.init_name b (init_name_of name port_name) }

  -- A bus whose callbacks are tidy and whose system bus is not allocated is registered with the
  -- result 0, first on the list and found by its init_name, and its unregistration then takes
  -- everything back; or the list, the system buses and what is seen of the world are as before, and
  -- the result is not 0 unless the bus has no function for the thread.
  pub rs485_bus_register-Outcome :
      (host : Host W) (memory : Bool) (b : ℕ) (s : Core W)
      → IsTidy host b
      → s.allocated b ≡ false
      → Outcome host s b (rs485_bus_register host memory (some b) s)
  unfolding rs485_bus_register
  rs485_bus_register-Outcome host memory b s tidy free =
      with_names-Outcome host b tidy memory s (s.name b) (s.port_name b) free
