-- ===== src/Signals/Tests.antt =====
-- A handler that counts is registered for SIGHUP, and the signals come.
use rs.Prelude.{ℕ, suc, ◌≡◌, none, some, [], ◌∷◌}
use rs.Signals.{
  Registration, sighup, sigterm, handle_register, registered, signal_handle_pthread, waits,
  unhandled, signal_handle_pthread-unhandled,
}

abbrev counts : Registration ℕ ℕ
counts = record { signal = sighup; handle = some (λ arg w. suc w); arg = none }

signal_handle_pthread-unhandled_example :
    signal_handle_pthread
      (registered handle_register (counts ∷ []))
      (some sighup ∷ some sigterm ∷ some sighup ∷ [])
      (waits 3)
    ≡ unhandled (some sighup ∷ some sigterm ∷ some sighup ∷ []) 3
signal_handle_pthread-unhandled_example =
    signal_handle_pthread-unhandled (counts ∷ []) (some sighup ∷ some sigterm ∷ some sighup ∷ []) 3
