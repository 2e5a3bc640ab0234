-- ===== src/Bus/Driver/Detach.antt =====
-- The release of the devices of a driver that goes away.
use rs.Prelude.{
  ℕ, zero, suc, ◌<◌, ◌≡◌, ◌⊎◌, inl, inr, refl, sym, ap, ◌∙◌, subst, true, false, Option, none, some,
  List, [], ◌∷◌, ◌++◌, Bool-cases, ◌==◌, if◌then◌else◌, length, length-append, arith,
}
use mathlib.Core.Logic.{⊎_elim}
use mathlib.Core.List.{Memᴰ, append_assoc, append-nil}
use mathlib.Core.List.Memᴰ
use rs.Bus.{Device, DeviceDriver, BusType, put, wlist_del}
use rs.Bus.Driver.{last, is_driver, release_from, device_release_driver, detach_turn, driver_detach}
use rs.Bus.Lookup.{NoneOf, wlist_del_at}

-- No node stands on a list twice.
abbrev pub Distinct : List ℕ → Type 0
Distinct l = (xs ys : List ℕ) (d : ℕ) → l ≡ xs ++ d ∷ ys → NoneOf (λ x. x == d) xs

last-split :
    (l : List ℕ)
    → ((l ≡ []) × (last l ≡ none))
      ⊎ ((xs : List ℕ) × (d : ℕ) × (l ≡ xs ++ d ∷ []) × (last l ≡ some d))
unfolding last
last-split [] = inl (refl, refl)
last-split (x ∷ xs) = elim (last-split xs) [
  | inl (empty, none_last) ↦ inr ([], x, ap (λ l. x ∷ l) empty, ground (arith, none_last))
  | inr (ys, d, e, at) ↦ inr (x ∷ ys, d, ap (λ l. x ∷ l) e, ground (arith, at))
]

self_test : (i : ℕ) → (i == i) ≡ true
self_test i = ground arith

module _ (drv : ℕ) where
  abbrev pub devices_of : BusType → List ℕ
  devices_of bus = (bus.driver drv).wlist_devices

  -- Every device on the driver's list has that driver.
  abbrev pub Owns : BusType → Type 0
  Owns bus = (dev : ℕ) → Memᴰ dev (devices_of bus) → (bus.device dev).driver ≡ some drv

  -- The loop ends with an empty list, and none of its devices has a driver.
  abbrev pub Released : BusType → Option BusType → Type 0
  Released bus r =
      (bus' : BusType) × (r ≡ some bus')
      × (devices_of bus' ≡ [])
      × ((dev : ℕ) → Memᴰ dev (devices_of bus) → (bus'.device dev).driver ≡ none)
      × ((dev : ℕ) → (bus.device dev).driver ≡ none → (bus'.device dev).driver ≡ none)

  put_self : {A : Type 0} → (f : ℕ → A) (i : ℕ) (a : A) → put f i a i ≡ a
  put_self f i a = ap (λ b. if b then a else f i) (self_test i)

  put_other : {A : Type 0} → (f : ℕ → A) (i j : ℕ) (a : A) → (j == i) ≡ false → put f i a j ≡ f j
  put_other f i j a e = ap (λ b. if b then a else f j) e

  -- The bus after the release of the last device.
  module _ (bus : BusType) (xs : List ℕ) (d : ℕ) where
    abbrev after : BusType
    after = release_from d bus (some drv)

    after-devices :
        devices_of bus ≡ xs ++ d ∷ [] → Distinct (devices_of bus) → devices_of after ≡ xs
    unfolding release_from
    after-devices e distinct =
        ap (λ (r : DeviceDriver). r.wlist_devices)
          (put_self bus.driver drv
            (record (bus.driver drv) { wlist_devices = wlist_del d (devices_of bus) }))
        ∙ ap (wlist_del d) e
        ∙ wlist_del_at xs [] d (distinct xs [] d e)
        ∙ append-nil xs

    abbrev bare : Device
    bare = record (bus.device d) { driver = none; on_driver = false }

    after-Owns : devices_of bus ≡ xs ++ d ∷ [] → Distinct (devices_of bus) → Owns bus → Owns after
    unfolding release_from
    after-Owns e distinct owns dev m =
        let m' = subst (Memᴰ dev) (after-devices e distinct) m in
        ap (λ (v : Device). v.driver) (put_other bus.device d dev bare (distinct xs [] d e dev m'))
        ∙ owns dev (subst (Memᴰ dev) (sym e) (Memᴰ.append_left (d ∷ []) m'))

    after-none :
        (dev : ℕ) → ((bus.device dev).driver ≡ none) ⊎ (dev ≡ d) → (after.device dev).driver ≡ none
    unfolding release_from
    after-none dev h = elim (Bool-cases (dev == d)) [
      | inl same ↦ ap (λ b. (if b then bare else bus.device dev).driver) same
      | inr other ↦
          ap (λ b. (if b then bare else bus.device dev).driver) other
          ∙ ⊎_elim (λ e. e) (λ e. absurd (ground arith)) h
    ]

  -- A turn at the last device of the list.
  turn_owned :
      (fuel : ℕ) (bus : BusType) (d : ℕ)
      → last (devices_of bus) ≡ some d
      → (bus.device d).driver ≡ some drv
      → driver_detach (suc fuel) drv bus ≡ driver_detach fuel drv (after bus [] d)
  unfolding driver_detach detach_turn device_release_driver
  turn_owned fuel bus d at own =
      ap (detach_turn (driver_detach fuel drv) drv bus) at
      ∙ ap (λ o. driver_detach fuel drv (if is_driver drv o then release_from d bus o else bus)) own
      ∙ ap (λ b. driver_detach fuel drv (if b then release_from d bus (some drv) else bus))
          (self_test drv)

  -- A prefix of a list without repetitions has none.
  Distinct-prefix : (l xs : List ℕ) (d : ℕ) → l ≡ xs ++ d ∷ [] → Distinct l → Distinct xs
  Distinct-prefix l xs d e distinct us bs x e' =
      distinct us (bs ++ d ∷ []) x
        (e ∙ ap (λ k. k ++ d ∷ []) e' ∙ append_assoc us (x ∷ bs) (d ∷ []))

  -- A list without devices has nothing to release.
  ends :
      (fuel : ℕ) (bus : BusType)
      → devices_of bus ≡ []
      → last (devices_of bus) ≡ none
      → Released bus (driver_detach (suc fuel) drv bus)
  unfolding driver_detach detach_turn
  ends fuel bus empty at = (
    bus,
    ap (detach_turn (driver_detach fuel drv) drv bus) at,
    empty,
    λ dev m. absurd (Memᴰ.not-nil (subst (Memᴰ dev) empty m)),
    λ dev e. e,
  )

  shorter :
      (fuel : ℕ) (xs l : List ℕ) (d : ℕ) → l ≡ xs ++ d ∷ [] → length l < suc fuel → length xs < fuel
  shorter fuel xs l d e enough =
      omega (arith, ap (λ k. length k) e, length-append xs (d ∷ []), enough)

  -- The turns after the first release what is left.
  released :
      (fuel : ℕ) (bus : BusType) (xs : List ℕ) (d : ℕ)
      → devices_of bus ≡ xs ++ d ∷ []
      → Distinct (devices_of bus)
      → last (devices_of bus) ≡ some d
      → (bus.device d).driver ≡ some drv
      → Released (after bus xs d) (driver_detach fuel drv (after bus xs d))
      → Released bus (driver_detach (suc fuel) drv bus)
  released fuel bus xs d e distinct at own (bus', ran, empty, free, kept) = (
    bus',
    turn_owned fuel bus d at own ∙ ran,
    empty,
    λ dev m.
        ⊎_elim (λ m'. free dev (subst (Memᴰ dev) (sym (after-devices bus xs d e distinct)) m'))
          (λ same. kept dev (after-none bus xs d dev (inr (Memᴰ.eq_of_singleton same))))
          (Memᴰ.append_cases xs (subst (Memᴰ dev) e m)),
    λ dev n. kept dev (after-none bus xs d dev (inl n)),
  )

  -- With more fuel than devices, the loop ends: the list of the driver is empty, and no device that
  -- was on it has a driver, when no device stood on it twice and each had this driver.
  pub driver_detach-Released :
      (fuel : ℕ) (bus : BusType)
      → Owns bus
      → Distinct (devices_of bus)
      → length (devices_of bus) < fuel
      → Released bus (driver_detach fuel drv bus)
  driver_detach-Released zero bus owns distinct enough = absurd (omega arith)
  driver_detach-Released (suc fuel) bus owns distinct enough = elim (last-split (devices_of bus)) [
    | inl (empty, at) ↦ ends fuel bus empty at
    | inr (xs, d, e, at) ↦
        let left = after-devices bus xs d e distinct in
        released fuel bus xs d e distinct at
          (owns d (subst (Memᴰ d) (sym e) (Memᴰ.append_right xs (Memᴰ.head refl))))
          (driver_detach-Released fuel (after bus xs d) (after-Owns bus xs d e distinct owns)
            (subst Distinct (sym left) (Distinct-prefix (devices_of bus) xs d e distinct))
            (subst (λ l. length l < fuel) (sym left) (shorter fuel xs (devices_of bus) d e enough)))
  ]
