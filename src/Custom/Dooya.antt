-- ===== src/Custom/Dooya.antt =====
-- The Dooya driver of the custom bus, app/rs485d/src/device/curtain/doya/dooya.c. Its `get` and `put`
-- do nothing.
use rs.Prelude.{
  ℕ, Bool, true, false, ◌&&◌, not, Option, none, some, List, [], ◌∷◌, ℤ, pos, neg_einval, ◌==◌,
  if◌then◌else◌,
}
use rs.Bus.{Hooks}
use rs.Core.{Core, rs485_driver_register}
use rs.Custom.{Driver}

module _ {W : Type 0} where
  -- `dooya_get(buffer, len, arg, broadcast)`
  pub dooya_get : ℕ → List ℕ → Bool → W → ℤ × List ℕ × Bool × W
  dooya_get arg buffer broadcast w = (pos 0, buffer, broadcast, w)

  -- `dooya_put(buffer, len, arg, profile)`
  pub dooya_put : ℕ → ℕ → List ℕ → ℕ → W → ℤ × W
  dooya_put arg profile buffer len w = (pos 0, w)

  -- `dooya_driver` with `dooya_driver_data`
  unfoldable pub dooya_driver : Driver W
  dooya_driver = record {
    get = some dooya_get;
    put = some dooya_put;
    retransmission = 3;
    receive_timeout_ms = 300;
    broadcast = false;
  }

-- `dooya_driver.match_bus`, "custom"
abbrev pub match_bus : List ℕ
match_bus = 99 ∷ 117 ∷ 115 ∷ 116 ∷ 111 ∷ 109 ∷ []

-- `strncmp(prefix, name, strlen(prefix)) == 0`
pub starts_with : List ℕ → List ℕ → Bool
starts_with [] name = true
starts_with (c ∷ prefix) [] = false
starts_with (c ∷ prefix) (d ∷ name) = c == d && starts_with prefix name

-- `rs485_dooya_driver_init(name)`, of the driver `drv`, with the results of the registration's calls.
pub rs485_dooya_driver_init :
    {W : Type 0} → Hooks → Bool → ℕ → Option (List ℕ) → Core W → ℤ × Core W
rs485_dooya_driver_init hooks memory drv none s = (neg_einval, s)
rs485_dooya_driver_init hooks memory drv (some name) s =
    if not (starts_with match_bus name)
    then (pos 1, s)
    else rs485_driver_register hooks memory drv name s
