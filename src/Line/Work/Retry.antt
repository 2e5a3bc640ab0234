-- ===== src/Line/Work/Retry.antt =====
-- How often the worker sends a message, and how the message ends.
use native.Mathlib.Decide.{dec_lt}
use rs.Prelude.{
  ℕ, zero, suc, ◌≤◌, ◌≡◌, refl, subst, ap, ◌∙◌, inl, inr, Bool, true, false, ◌&&◌, not, some, List,
  ℤ, arith, is_nonzero, ◌==◌, if◌then◌else◌, Bool-cases,
}
use rs.Line.Frame.{Os, Handle, Result, rs485_send_handle_frame}
use rs.Line.Frame.Laws.{IsKeeping, Kept, send-Kept, recv-Kept}
use rs.Line.Work.{
  Turn, aborted, tried, prepared, attempt, after_send, await, decrement, settle, loop,
}

-- How a message ends: thrown away because it could not be sent, answered (or needing no answer), or
-- given up.
pub data End : Type 0 where
  stopped delivered gave_up : End

if_both {ℓ ℓ'} :
    {A : Type ℓ} (P : A → Type ℓ') (b : Bool) {x y : A} → P x → P y → P (if b then x else y)
if_both P true p q = p
if_both P false p q = q

module _ {W : Type 0} (os : Os W) (mtu wrapped : ℕ) (block : List ℕ) where
  -- `Runs k end h w out`: from `h` and `w` the message is over after `k` transmissions.
  pub data Runs : ℕ → End → Handle W → W → ℤ × Handle W × W → Type 0 where
    stop :
        {h h' : Handle W} {w w' : W} {e : ℤ}
        → attempt os mtu wrapped block h w ≡ aborted e h' w'
        → Runs 1 stopped h w (e, h', w')
    answered :
        {h h' : Handle W} {w w' : W} {e : ℤ}
        → attempt os mtu wrapped block h w ≡ tried e h' w'
        → is_nonzero e ≡ false
        → Runs 1 delivered h w (e, decrement os mtu wrapped h', w')
    last :
        {h h' : Handle W} {w w' : W} {e : ℤ}
        → attempt os mtu wrapped block h w ≡ tried e h' w'
        → is_nonzero e ≡ true
        → h.port.retransmission ≡ 1
        → Runs 1 gave_up h w (e, decrement os mtu wrapped h', w')
    again :
        {k : ℕ} {end : End} {h h' : Handle W} {w w' : W} {e : ℤ} {out : ℤ × Handle W × W}
        → attempt os mtu wrapped block h w ≡ tried e h' w'
        → is_nonzero e ≡ true
        → 2 ≤ h.port.retransmission
        → Runs k end (decrement os mtu wrapped h') w' out
        → Runs (suc k) end h w out

  -- The turn of a loop on a handle whose drivers keep the number of retransmissions.
  TurnKeeps : Handle W → Turn os mtu wrapped → Type 0
  TurnKeeps h (aborted e h' w') = Unit
  TurnKeeps h (tried e h' w') = Kept h h'

  await-Kept : (h h' : Handle W) (w : W) → Kept h h' → TurnKeeps h (await os mtu wrapped h' w)
  unfolding TurnKeeps await
  await-Kept h h' w k =
      let kept = recv-Kept os h' w k.keeping in
      record { same = kept.same ∙ k.same; keeping = kept.keeping }

  after_send-Kept :
      (h : Handle W) (r : Result W) → Kept h r.1 → TurnKeeps h (after_send os mtu wrapped r)
  unfolding TurnKeeps after_send
  after_send-Kept h (e, h', w') k =
      if_both (TurnKeeps h) (is_nonzero e) tt
        (if_both (TurnKeeps h) h'.port.except_reply (await-Kept h h' w' k) k)

  attempt-Kept :
      (h : Handle W) (w : W) → IsKeeping h → TurnKeeps h (attempt os mtu wrapped block h w)
  unfolding attempt prepared
  attempt-Kept h w k =
      let start : IsKeeping (prepared os mtu wrapped block h) = record {
        sends = k.sends;
        receives = k.receives;
      } in
      let kept = send-Kept os (prepared os mtu wrapped block h) w start in
      after_send-Kept h (rs485_send_handle_frame os (prepared os mtu wrapped block h) w)
        (record { same = kept.same; keeping = kept.keeping })

  loop-aborted :
      (n : ℕ) (h : Handle W) (w : W) {e : ℤ} {h' : Handle W} {w' : W}
      → attempt os mtu wrapped block h w ≡ aborted e h' w'
      → loop os mtu wrapped (suc n) block h w ≡ some (e, h', w')
  unfolding loop settle
  loop-aborted n h w e = ap (settle os mtu wrapped (loop os mtu wrapped n block)) e

  loop-tried :
      (n : ℕ) (h : Handle W) (w : W) {e : ℤ} {h' : Handle W} {w' : W}
      → attempt os mtu wrapped block h w ≡ tried e h' w'
      → let h'' = decrement os mtu wrapped h' in
        loop os mtu wrapped (suc n) block h w ≡ (
          if not (h''.port.retransmission == 0) && is_nonzero e
          then loop os mtu wrapped n block h'' w'
          else some (e, h'', w'))
  unfolding loop settle
  loop-tried n h w e = ap (settle os mtu wrapped (loop os mtu wrapped n block)) e

  decrement-Kept :
      (h h' : Handle W)
      → 1 ≤ h.port.retransmission
      → Kept h h'
      → IsKeeping (decrement os mtu wrapped h')
        × (suc (decrement os mtu wrapped h').port.retransmission ≡ h.port.retransmission)
  unfolding decrement
  decrement-Kept h h' r k =
      (record { sends = k.keeping.sends; receives = k.keeping.receives }, ground (arith, k.same))

  -- The three results of the loop's condition.
  over :
      {A : Type 0} (r : ℕ) (e : ℤ) (x y : A)
      → is_nonzero e ≡ false
      → (if not (r == 0) && is_nonzero e then x else y) ≡ y
  over r e x y good = ground arith

  used_up :
      {A : Type 0} (r : ℕ) (e : ℤ) (x y : A)
      → r ≡ 0
      → (if not (r == 0) && is_nonzero e then x else y) ≡ y
  used_up r e x y none_left = ground arith

  goes_on :
      {A : Type 0} (r : ℕ) (e : ℤ) (x y : A)
      → 1 ≤ r
      → is_nonzero e ≡ true
      → (if not (r == 0) && is_nonzero e then x else y) ≡ x
  goes_on r e x y left bad = ground arith

  -- The number of transmissions against the number that the message allows.
  abbrev pub Within : End → ℕ → ℕ → Type 0
  Within stopped k r = k ≤ r
  Within delivered k r = k ≤ r
  Within gave_up k r = k ≡ r

  Within-suc : (end : End) (k r : ℕ) → Within end k r → Within end (suc k) (suc r)
  Within-suc stopped k r h = omega arith
  Within-suc delivered k r h = omega arith
  Within-suc gave_up k r h = omega arith

  -- The loop ends, in a run of the message that stays within the allowed number.
  abbrev pub Ends : ℕ → Handle W → W → Type 0
  Ends fuel h w =
      (k : ℕ) × (end : End) × (out : ℤ × Handle W × W) × (loop os mtu wrapped fuel block h w
        ≡ some out)
      × Runs k end h w out
      × Within end k h.port.retransmission

  -- One turn, given that the loop ends from the next one on.
  turned :
      (n : ℕ) (h : Handle W) (w : W) (t : Turn os mtu wrapped)
      → 1 ≤ h.port.retransmission
      → h.port.retransmission ≤ suc n
      → attempt os mtu wrapped block h w ≡ t
      → TurnKeeps h t
      → ((h' : Handle W) (w' : W)
          → IsKeeping h'
          → 1 ≤ h'.port.retransmission
          → h'.port.retransmission ≤ n
          → Ends n h' w')
      → Ends (suc n) h w
  unfolding TurnKeeps
  turned n h w (aborted e h' w') low high made kept next =
      (1, stopped, (e, h', w'), loop-aborted n h w made, stop made, low)
  turned n h w (tried e h' w') low high made kept next =
      let (keeping, less) = decrement-Kept h h' low kept in
      let h'' = decrement os mtu wrapped h' in
      elim (Bool-cases (is_nonzero e)) [
        | inr good ↦ (
          1,
          delivered,
          (e, h'', w'),
          loop-tried n h w made ∙ over h''.port.retransmission e _ _ good,
          answered made good,
          low,
        )
        | inl bad ↦ elim (dec_lt 1 h.port.retransmission) [
          | no single ↦ (
            1,
            gave_up,
            (e, h'', w'),
            loop-tried n h w made ∙ used_up h''.port.retransmission e _ _ (omega arith),
            last made bad (omega arith),
            omega arith,
          )
          | yes more ↦
              let (j, end, out, runs, steps, within) =
                next h'' w' keeping (omega arith) (omega arith) in
              (
                suc j,
                end,
                out,
                loop-tried n h w made
                    ∙ goes_on h''.port.retransmission e _ _ (omega arith) bad
                    ∙ runs,
                again made bad more steps,
                subst (Within end (suc j)) less (Within-suc end j h''.port.retransmission within),
              )
        ]
      ]

  -- A message that allows at least one transmission is over after at most as many as it allows, and
  -- after exactly as many if it is given up.
  pub loop-Runs :
      (fuel : ℕ) (h : Handle W) (w : W)
      → IsKeeping h
      → 1 ≤ h.port.retransmission
      → h.port.retransmission ≤ fuel
      → Ends fuel h w
  loop-Runs zero h w k low high = absurd (omega arith)
  loop-Runs (suc n) h w k low high =
      turned n h w (attempt os mtu wrapped block h w) low high refl (attempt-Kept h w k)
        (λ h' w' k' low' high'. loop-Runs n h' w' k' low' high')
