-- ===== src/Signals.antt =====
-- The signals of the daemon, sdk/module/daemon/signal.c. A handler of a client is a function on the
-- world.
mod Tests
use rs.Prelude.{ℕ, ◌≡◌, refl, ap, Option, none, some, List, [], ◌∷◌, ℤ, neg_eperm, neg_einval, pos}

pub data Signal : Type 0 where
  sighup sigterm : Signal
  other_signal : ℕ → Signal

-- `struct signal_handle_instance`, of which the signal is its place in the table.
pub record Instance (A W : Type 0) : Type 0 where
  pub arg : Option A
  pub handle : Option (Option A → W → W)

-- `handle_register`
pub record SignalTable (A W : Type 0) : Type 0 where
  pub on_sighup : Instance A W
  pub on_sigterm : Instance A W

abbrev pub handle_register : {A W : Type 0} → SignalTable A W
handle_register = record {
  on_sighup = record { arg = none; handle = none };
  on_sigterm = record { arg = none; handle = none };
}

-- How the thread stands: it waits for the next signal, or the process has exited.
pub data Process (W : Type 0) : Type 0 where
  waits : W → Process W
  exited : ℕ → W → Process W

-- A call of signal_handle_register: its arguments.
pub record Registration (A W : Type 0) : Type 0 where
  pub signal : Signal
  pub handle : Option (Option A → W → W)
  pub arg : Option A

-- The process without handlers: it waits on, until SIGTERM or an error of sigwait ends it.
pub unhandled : {W : Type 0} → List (Option Signal) → W → Process W
unhandled [] w = waits w
unhandled (none ∷ signals) w = exited 1 w
unhandled (some sighup ∷ signals) w = unhandled signals w
unhandled (some sigterm ∷ signals) w = exited 0 w
unhandled (some (other_signal n) ∷ signals) w = unhandled signals w

module _ {A W : Type 0} where
  -- The stores under the switch of signal_handle_register.
  pub stored : Signal → Instance A W → SignalTable A W → ℤ × SignalTable A W
  stored sighup i t = (pos 0, record t { on_sighup = i })
  stored sigterm i t = (pos 0, record t { on_sigterm = i })
  stored (other_signal n) i t = (neg_eperm, t)

  -- `signal_handle_register(signal, handle, arg)`
  pub signal_handle_register :
      Signal → Option (Option A → W → W) → Option A → SignalTable A W → ℤ × SignalTable A W
  signal_handle_register signal (some handle) arg t = (neg_einval, t)
  signal_handle_register signal none arg t = stored signal (record { arg = arg; handle = none }) t

  -- `if(handle) handle(arg)`
  pub called : Instance A W → Option (Option A → W → W) → W → W
  called i none w = w
  called i (some handle) w = handle i.arg w

  -- A turn of signal_handle_pthread; `none` is an error of sigwait.
  pub signal_turn : SignalTable A W → Option Signal → W → Process W
  signal_turn t none w = exited 1 w
  signal_turn t (some sighup) w = waits (called t.on_sighup t.on_sighup.handle w)
  signal_turn t (some sigterm) w = exited 0 (called t.on_sigterm t.on_sigterm.handle w)
  signal_turn t (some (other_signal n)) w = waits w

  -- `signal_handle_pthread(arg)`, on what sigwait gives.
  pub signal_handle_pthread : SignalTable A W → List (Option Signal) → Process W → Process W
  signal_handle_pthread t [] r = r
  signal_handle_pthread t (signal ∷ signals) (exited code w) = exited code w
  signal_handle_pthread t (signal ∷ signals) (waits w) =
      signal_handle_pthread t signals (signal_turn t signal w)

  -- The table after a number of calls.
  pub registered : SignalTable A W → List (Registration A W) → SignalTable A W
  registered t [] = t
  registered t (c ∷ calls) = registered (signal_handle_register c.signal c.handle c.arg t).1 calls

  -- A table without a handler.
  record IsIdle (t : SignalTable A W) : Type 0 where
    no_sighup : t.on_sighup.handle ≡ none
    no_sigterm : t.on_sigterm.handle ≡ none

  stored-IsIdle :
      (signal : Signal) (arg : Option A) (t : SignalTable A W)
      → IsIdle t
      → IsIdle (stored signal (record { arg = arg; handle = none }) t).1
  unfolding stored
  stored-IsIdle sighup arg t i = record { no_sighup = refl; no_sigterm = i.no_sigterm }
  stored-IsIdle sigterm arg t i = record { no_sighup = i.no_sighup; no_sigterm = refl }
  stored-IsIdle (other_signal n) arg t i = i

  register-IsIdle :
      (signal : Signal) (handle : Option (Option A → W → W)) (arg : Option A) (t : SignalTable A W)
      → IsIdle t
      → IsIdle (signal_handle_register signal handle arg t).1
  unfolding signal_handle_register
  register-IsIdle signal none arg t i = stored-IsIdle signal arg t i
  register-IsIdle signal (some handle) arg t i = i

  registered-IsIdle :
      (t : SignalTable A W) (calls : List (Registration A W))
      → IsIdle t
      → IsIdle (registered t calls)
  unfolding registered
  registered-IsIdle t [] i = i
  registered-IsIdle t (c ∷ calls) i =
      registered-IsIdle (signal_handle_register c.signal c.handle c.arg t).1 calls
        (register-IsIdle c.signal c.handle c.arg t i)

  exited-stays :
      (t : SignalTable A W) (signals : List (Option Signal)) (code : ℕ) (w : W)
      → signal_handle_pthread t signals (exited code w) ≡ exited code w
  unfolding signal_handle_pthread
  exited-stays t [] code w = refl
  exited-stays t (s ∷ signals) code w = refl

  idle-unhandled :
      (t : SignalTable A W) (signals : List (Option Signal)) (w : W)
      → IsIdle t
      → signal_handle_pthread t signals (waits w) ≡ unhandled signals w
  unfolding signal_handle_pthread signal_turn called unhandled
  idle-unhandled t [] w i = refl
  idle-unhandled t (none ∷ signals) w i = exited-stays t signals 1 w
  idle-unhandled t (some (other_signal n) ∷ signals) w i = idle-unhandled t signals w i
  idle-unhandled t (some sighup ∷ signals) w i = rw i.no_sighup (idle-unhandled t signals w i)
  idle-unhandled t (some sigterm ∷ signals) w i = rw i.no_sigterm (exited-stays t signals 0 w)

  -- Whatever is registered from the start on, no handler is ever called: the thread leaves the
  -- world, waits on at SIGHUP and at every other signal, and ends the process with 0 at the first
  -- SIGTERM, or with 1 at the first error of sigwait.
  pub signal_handle_pthread-unhandled :
      (calls : List (Registration A W)) (signals : List (Option Signal)) (w : W)
      → signal_handle_pthread (registered handle_register calls) signals (waits w)
        ≡ unhandled signals w
  signal_handle_pthread-unhandled calls signals w =
      idle-unhandled (registered handle_register calls) signals w
        (registered-IsIdle handle_register calls (record { no_sighup = refl; no_sigterm = refl }))
