-- ===== src/Core/Ports.antt =====
-- No serial port has two buses, whatever calls have been made.
use rs.Prelude.{
  ℕ, ◌≡◌, ◌⊎◌, inl, inr, refl, ap, ◌∙◌, Bool, true, false, ◌&&◌, not, Option, none, some, List, [],
  ◌∷◌, arith, ℤ, is_nonzero, Bool-cases,
}
use rs.Bus.{put, wlist_del}
use rs.Bus.Lookup.{wlist_del-nil, wlist_del-cons}
use rs.Core.{
  Host, Core, is_name, same_string, is_rs485_bus_used, bus_register, bus_unregister, init_name_of,
  probed, sysbus_register_fail, after_thread, after_register, after_probe, with_names,
  rs485_bus_register, rs485_bus_unregister,
}

-- A call of the daemon: with whether malloc succeeds, or with the bus alone.
pub data Call : Type 0 where
  register : Bool → Option ℕ → Call
  unregister : Option ℕ → Call

unfoldable pub has_port : Option (List ℕ) → Bool
has_port none = false
has_port (some port) = true

unfoldable pub same_port : Option (List ℕ) → Option (List ℕ) → Bool
same_port none other = false
same_port (some port) none = false
same_port (some port) (some other) = same_string other port

unfoldable pub none_has : (ℕ → Option (List ℕ)) → Option (List ℕ) → List ℕ → Bool
none_has ports port [] = true
none_has ports port (c ∷ buses) = not (same_port port (ports c)) && none_has ports port buses

-- Every bus of the list has a port, and no later bus has the same.
unfoldable pub ports_apart : (ℕ → Option (List ℕ)) → List ℕ → Bool
ports_apart ports [] = true
ports_apart ports (b ∷ buses) =
    has_port (ports b) && none_has ports (ports b) buses && ports_apart ports buses

none_has-wlist_del :
    (ports : ℕ → Option (List ℕ)) (port : Option (List ℕ)) (b : ℕ) (buses : List ℕ)
    → none_has ports port buses ≡ true
    → none_has ports port (wlist_del b buses) ≡ true
unfolding none_has
none_has-wlist_del ports port b [] h = ap (none_has ports port) (wlist_del-nil b)
none_has-wlist_del ports port b (c ∷ buses) h =
    ground (arith, wlist_del-cons b c buses, none_has-wlist_del ports port b buses)

ports_apart-wlist_del :
    (ports : ℕ → Option (List ℕ)) (b : ℕ) (buses : List ℕ)
    → ports_apart ports buses ≡ true
    → ports_apart ports (wlist_del b buses) ≡ true
unfolding ports_apart
ports_apart-wlist_del ports b [] h = ap (ports_apart ports) (wlist_del-nil b)
ports_apart-wlist_del ports b (c ∷ buses) h = ground (
  arith,
  wlist_del-cons b c buses,
  none_has-wlist_del ports (ports c) b buses,
  ports_apart-wlist_del ports b buses,
)

module _ {W : Type 0} where
  unused-none_has :
      (s : Core W) (name : List ℕ) (buses : List ℕ)
      → is_rs485_bus_used name s buses ≡ false
      → none_has s.port_name (some name) buses ≡ true
  unfolding is_rs485_bus_used none_has same_port is_name
  unused-none_has s name [] h = refl
  unused-none_has s name (c ∷ buses) h = ground (arith, unused-none_has s name buses)

  -- What a registration does to the ports and the list.
  pub record Grows (b : ℕ) (s s' : Core W) : Type 0 where
    pub ports : s'.port_name ≡ s.port_name
    pub called : s'.name ≡ s.name
    pub named : s'.init_name ≡ s.init_name
    pub list : (s'.rs485_bus_list ≡ s.rs485_bus_list) ⊎ (s'.rs485_bus_list ≡ b ∷ s.rs485_bus_list)

  module _ (host : Host W) (b : ℕ) where
    after_thread-Grows :
        (s s' : Core W) (r : ℤ × W)
        → s'.port_name ≡ s.port_name
        → s'.name ≡ s.name
        → s'.init_name ≡ s.init_name
        → s'.rs485_bus_list ≡ s.rs485_bus_list
        → Grows b s (after_thread host b s' r).1
    unfolding after_thread sysbus_register_fail bus_unregister
    after_thread-Grows s s' r ports called named list = elim (Bool-cases (is_nonzero r.0)) [
      | inl fails ↦
          rw fails (record { ports = ports; called = called; named = named; list = inl list })
      | inr runs ↦ rw runs (record {
        ports = ports;
        called = called;
        named = named;
        list = inr (ap (λ l. b ∷ l) list);
      })
    ]

    after_register-Grows :
        (memory : Bool) (s s' : Core W)
        → s'.port_name ≡ s.port_name
        → s'.name ≡ s.name
        → s'.init_name ≡ s.init_name
        → s'.rs485_bus_list ≡ s.rs485_bus_list
        → Grows b s (after_register host b (bus_register memory b s')).1
    unfolding after_register bus_register sysbus_register_fail bus_unregister
    after_register-Grows false s s' ports called named list = record {
      ports = ports;
      called = called;
      named = named;
      list = inl list;
    }
    after_register-Grows true s s' ports called named list =
        elim (Bool-cases (host.has_pthread_func b)) [
          | inl starts ↦ rw starts (
              after_thread-Grows s (bus_register true b s').1 (host.pthread_create b s'.world) ports
                called named list)
          | inr without ↦
              rw without (record { ports = ports; called = called; named = named; list = inl list })
        ]

    pub after_probe-Grows :
        (memory : Bool) (s s' : Core W) (r : ℤ × W)
        → s'.port_name ≡ s.port_name
        → s'.name ≡ s.name
        → s'.init_name ≡ s.init_name
        → s'.rs485_bus_list ≡ s.rs485_bus_list
        → Grows b s (after_probe host memory b s' r).1
    unfolding after_probe
    after_probe-Grows memory s s' r ports called named list = elim (Bool-cases (is_nonzero r.0)) [
      | inl fails ↦
          rw fails (record { ports = ports; called = called; named = named; list = inl list })
      | inr opens ↦
          rw opens
            (after_register-Grows memory s (record s' { world = r.1 }) ports called named list)
    ]

    -- The list grows by a bus whose port is free.
    grown :
        (s s' : Core W) (port : List ℕ)
        → s.port_name b ≡ some port
        → is_rs485_bus_used port s s.rs485_bus_list ≡ false
        → ports_apart s.port_name s.rs485_bus_list ≡ true
        → Grows b s s'
        → ports_apart s'.port_name s'.rs485_bus_list ≡ true
    unfolding ports_apart has_port
    grown s s' port has unused apart g = rw g.ports (go g.list)
      where
        go :
            (s'.rs485_bus_list ≡ s.rs485_bus_list) ⊎ (s'.rs485_bus_list ≡ b ∷ s.rs485_bus_list)
            → ports_apart s.port_name s'.rs485_bus_list ≡ true
        go (inl e) = ap (ports_apart s.port_name) e ∙ apart
        go (inr e) =
            ap (ports_apart s.port_name) e
            ∙ ground (arith, has, apart, unused-none_has s port s.rs485_bus_list unused)

    with_names-ports_apart :
        (memory : Bool) (s : Core W) (name port : Option (List ℕ))
        → s.port_name b ≡ port
        → ports_apart s.port_name s.rs485_bus_list ≡ true
        → let s' = (with_names host memory b name port s).1 in
          ports_apart s'.port_name s'.rs485_bus_list ≡ true
    unfolding with_names
    with_names-ports_apart memory s none port has apart = apart
    with_names-ports_apart memory s (some name) none has apart = apart
    with_names-ports_apart memory s (some name) (some port) has apart =
        elim (Bool-cases (is_rs485_bus_used port s' s'.rs485_bus_list)) [
          | inl used ↦ rw used apart
          | inr unused ↦ rw unused (
              grown s' (after_probe host memory b s' (probed (host.probe b) s'.world)).1 port has
                unused apart
                (after_probe-Grows memory s' s' (probed (host.probe b) s'.world) refl refl refl
                  refl))
        ]
      where
        s' : Core W
        s' = record s { init_name = put s.init_name b (init_name_of name port) }

  -- One call, and a sequence of calls.
  unfoldable pub step : Host W → Core W → Call → Core W
  step host s (register memory b) = (rs485_bus_register host memory b s).1
  step host s (unregister b) = rs485_bus_unregister host b s

  unfoldable pub run : Host W → Core W → List Call → Core W
  run host s [] = s
  run host s (c ∷ calls) = run host (step host s c) calls

  step-ports_apart :
      (host : Host W) (s : Core W) (c : Call)
      → ports_apart s.port_name s.rs485_bus_list ≡ true
      → ports_apart (step host s c).port_name (step host s c).rs485_bus_list ≡ true
  unfolding step rs485_bus_register rs485_bus_unregister sysbus_register_fail bus_unregister
  step-ports_apart host s (register memory none) apart = apart
  step-ports_apart host s (register memory (some b)) apart =
      with_names-ports_apart host b memory s (s.name b) (s.port_name b) refl apart
  step-ports_apart host s (unregister none) apart = apart
  step-ports_apart host s (unregister (some b)) apart =
      ports_apart-wlist_del s.port_name b s.rs485_bus_list apart

  -- Whatever the callbacks do, after any sequence of registrations and unregistrations every bus on
  -- the list has a port, and no two have the same, if it was so before.
  pub run-ports_apart :
      (host : Host W) (s : Core W) (calls : List Call)
      → ports_apart s.port_name s.rs485_bus_list ≡ true
      → ports_apart (run host s calls).port_name (run host s calls).rs485_bus_list ≡ true
  unfolding run
  run-ports_apart host s [] apart = apart
  run-ports_apart host s (c ∷ calls) apart =
      run-ports_apart host (step host s c) calls (step-ports_apart host s c apart)
