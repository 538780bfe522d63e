-- ===== src/Client/Promote/Wait.antt =====
-- The wait for a promotion to complete.
use repmgr.Base.{
  ◌≡◌, ◌⊎◌, sym, ℕ, zero, suc, ◌+◌, ◌*◌, ◌<◌, ◌≤◌, Bool, true, false, inl, inr, Bool-cases, ltb,
  arith,
}
use mathlib.Core.Path.{subst}
use repmgr.Nodes.{RecoveryType, rectype_primary}
use repmgr.Client.Promote.Run.{PromoteWorld, poll}

abbrev pub is_primary_type : RecoveryType → Bool
is_primary_type rectype_primary = true
is_primary_type _ = false

-- One of the polls from second `i` on is within the timeout and sees a primary.
abbrev pub Seen : PromoteWorld → ℕ → Type 0
Seen w i =
    (k : ℕ) × (i + k * w.promote_check_interval < w.promote_check_timeout)
    × (is_primary_type (w.recovery_at (i + k * w.promote_check_interval)) ≡ true)

module _ (w : PromoteWorld) where
  at_once : (i step : ℕ) → i + 0 * step ≡ i
  at_once i step = omega arith

  later_on : (i step k : ℕ) → (i + step) + k * step ≡ i + suc k * step
  later_on i step k = omega arith

  Seen-now :
      (i : ℕ) → i < w.promote_check_timeout → is_primary_type (w.recovery_at i) ≡ true → Seen w i
  Seen-now i h p =
      let e = at_once i w.promote_check_interval in
      (
        0,
        subst (λ j. j < w.promote_check_timeout) (sym e) h,
        subst (λ j. is_primary_type (w.recovery_at j) ≡ true) (sym e) p,
      )

  Seen-later : (i : ℕ) → Seen w (i + w.promote_check_interval) → Seen w i
  Seen-later i (k, h, p) =
      let e = later_on i w.promote_check_interval k in
      (
        suc k,
        subst (λ j. j < w.promote_check_timeout) e h,
        subst (λ j. is_primary_type (w.recovery_at j) ≡ true) e p,
      )

  Seen-cases :
      (i : ℕ)
      → Seen w i
      → (is_primary_type (w.recovery_at i) ≡ true) ⊎ Seen w (i + w.promote_check_interval)
  Seen-cases i (zero, h, p) =
      inl (
        subst (λ j. is_primary_type (w.recovery_at j) ≡ true) (at_once i w.promote_check_interval)
          p)
  Seen-cases i (suc k, h, p) =
      let e = sym (later_on i w.promote_check_interval k) in
      inr (
        k,
        subst (λ j. j < w.promote_check_timeout) e h,
        subst (λ j. is_primary_type (w.recovery_at j) ≡ true) e p,
      )

  Seen-lt : (i : ℕ) → Seen w i → i < w.promote_check_timeout
  Seen-lt i (k, h, p) = omega (arith, h)

  pub poll-Seen :
      (fuel i : ℕ) (last : RecoveryType)
      → is_primary_type last ≡ false
      → is_primary_type (poll w fuel i last) ≡ true
      → Seen w i
  unfolding poll
  poll-Seen zero i last h p = ground arith
  poll-Seen (suc fuel) i last h p =
      let next = i + w.promote_check_interval in
      elim (Bool-cases (ltb i w.promote_check_timeout)) [
        | inl early ↦ elim (Bool-cases (is_primary_type (w.recovery_at i))) [
          | inl now ↦ Seen-now i (ground (arith, early)) now
          | inr not_now ↦
              Seen-later i
                (poll-Seen fuel next (w.recovery_at i) not_now (ground (arith, p, early, not_now)))
        ]
        | inr late ↦ ground (arith, p, late, h)
      ]

  pub Seen-poll :
      (fuel i : ℕ) (last : RecoveryType)
      → 1 ≤ w.promote_check_interval
      → w.promote_check_timeout ≤ fuel + i
      → Seen w i
      → is_primary_type (poll w fuel i last) ≡ true
  unfolding poll
  Seen-poll zero i last positive enough s = ground (arith, Seen-lt i s)
  Seen-poll (suc fuel) i last positive enough s =
      let next = i + w.promote_check_interval in
      let early = Seen-lt i s in
      elim (Seen-cases i s) [
        | inl now ↦ ground (arith, early, now)
        | inr later ↦ ground (
          arith,
          early,
          Seen-poll fuel next (w.recovery_at i) positive (omega (arith, positive, enough)) later,
        )
      ]
