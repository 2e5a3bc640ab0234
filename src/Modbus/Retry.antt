-- ===== src/Modbus/Retry.antt =====
-- The retries of a call of libmodbus.
use rs.Prelude.{
  ℕ, zero, suc, ◌-◌, ◌≤◌, ◌<◌, ◌≡◌, ◌≢◌, ◌⊎◌, inl, inr, refl, sym, ap, ◌∙◌, true, false, some, List,
  ℤ, pos, negsuc, Bool-cases, arith,
}
use rs.Modbus.{Answer, same, Outcome, retry}

same-eq : (a b : ℤ) → same a b ≡ true → a ≡ b
same-eq (pos a) (pos b) e = ap pos (ground arith)
same-eq (negsuc a) (negsuc b) e = ap negsuc (ground arith)
same-eq (pos a) (negsuc b) e = ground arith
same-eq (negsuc a) (pos b) e = ground arith

same_self : (a : ℤ) → same a a ≡ true
same_self (pos a) = ground arith
same_self (negsuc a) = ground arith

same-ne : (a b : ℤ) → same a b ≡ false → a ≢ b
same-ne a b differs e = ground (arith, sym differs ∙ ap (same a) (sym e) ∙ same_self a)

-- The buffer and the world that a call leaves.
abbrev pub left_by : {W : Type 0} → Answer W → List ℕ × W
left_by (retval, buffer, w) = (buffer, w)

module _ {W : Type 0} (call : List ℕ → W → Answer W) where
  -- The buffer and the world after a number of calls, and the result of the call after them.
  abbrev pub calls : ℕ → List ℕ × W → List ℕ × W
  calls zero s = s
  calls (suc k) (buffer, w) = calls k (left_by (call buffer w))

  abbrev pub result : ℕ → List ℕ × W → ℤ
  result k s = let (buffer, w) = calls k s in (call buffer w).0

  -- The outcome of at most `n` calls, of which the last gave `wanted` or was the `n`th, and the
  -- others did not give it.
  pub record Attempted (wanted : ℤ) (n : ℕ) (s : List ℕ × W) (o : Outcome W) : Type 0 where
    pub before : ℕ
    pub within : before < n
    pub left : o.1 ≡ n - suc before
    pub state : (o.2, o.3) ≡ calls (suc before) s
    pub value : o.0 ≡ result before s
    pub others : (j : ℕ) → j < before → result j s ≢ wanted
    pub ends : (o.0 ≡ wanted) ⊎ (o.1 ≡ 0)

  module _ (wrapped : ℕ) (wanted : ℤ) where
    Attempted-now :
        (n : ℕ) (s : List ℕ × W)
        → ((call s.0 s.1).0 ≡ wanted) ⊎ (n ≡ 0)
        → Attempted wanted (suc n) s ((call s.0 s.1).0, n, (call s.0 s.1).1, (call s.0 s.1).2)
    Attempted-now n s ends = record {
      before = 0;
      within = omega arith;
      left = omega arith;
      state = refl;
      value = refl;
      others = λ j low. absurd (omega arith);
      ends = ends;
    }

    Attempted-later :
        (n : ℕ) (s : List ℕ × W) (o : Outcome W)
        → (call s.0 s.1).0 ≢ wanted
        → Attempted wanted n (left_by (call s.0 s.1)) o
        → Attempted wanted (suc n) s o
    Attempted-later n s o first a = record {
      before = suc a.before;
      within = omega (arith, a.within);
      left = omega (arith, a.left);
      state = a.state;
      value = a.value;
      others = earlier;
      ends = a.ends;
    }
      where
        earlier : (j : ℕ) → j < suc a.before → result j s ≢ wanted
        earlier zero low = first
        earlier (suc j) low = a.others j (omega arith)

    -- With fuel for `n ≥ 1` retransmissions the loop ends, after at most `n` calls.
    pub retry-Attempted :
        (fuel n : ℕ) (buffer : List ℕ) (w : W)
        → 1 ≤ n
        → n ≤ fuel
        → (o : Outcome W) × (retry wrapped call wanted fuel n buffer w ≡ some o)
          × Attempted wanted n (buffer, w) o
    unfolding retry
    retry-Attempted zero n buffer w some_call enough = absurd (omega arith)
    retry-Attempted (suc fuel) zero buffer w some_call enough = absurd (omega arith)
    retry-Attempted (suc fuel) (suc zero) buffer w some_call enough =
        (_, refl, Attempted-now 0 (buffer, w) (inr refl))
    retry-Attempted (suc fuel) (suc (suc n)) buffer w some_call enough =
        elim (Bool-cases (same (call buffer w).0 wanted)) [
          | inl good ↦ (
            _,
            ground arith,
            Attempted-now (suc n) (buffer, w) (inl (same-eq (call buffer w).0 wanted good)),
          )
          | inr bad ↦
              let (retval, buffer', w') = call buffer w in
              let (o, ran, a) =
                retry-Attempted fuel (suc n) buffer' w' (omega arith) (omega arith) in
              (
                o,
                ground arith,
                Attempted-later (suc n) (buffer, w) o (same-ne (call buffer w).0 wanted bad) a,
              )
        ]
