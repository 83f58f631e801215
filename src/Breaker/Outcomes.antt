-- ===== src/Breaker/Outcomes.antt =====
-- What one call of `report` does to the member that it names, and to the others.
use dnsproxy_router.Prelude.{
  sym, inr, inl, ℕ, suc, ◌≤◌, ◌≡◌, ◌≢◌, Bool, true, false, some, arith, get_elem?, length,
  Option-cases, length-set, get_elem?-set_self, get_elem?-set_ne, lt_of_get_elem?,
}
use dnsproxy_router.Prelude.Int.{ℤ, ltb_ℤ, ◌-ℤ◌}
use dnsproxy_router.Breaker.{Breaker, BreakerState, fresh, note, report, open_locked}

-- A success always ends in the zero state.
pub note-success :
    (threshold : ℕ) (now : ℤ) (st : BreakerState) → note threshold now true st ≡ fresh
unfolding note
note-success threshold now st = ground arith

module _ (b : Breaker) (i : ℕ) (now : ℤ) (ok : Bool) where
  pub report-config :
      ((report b i now ok).fail_threshold ≡ b.fail_threshold)
      × ((report b i now ok).cooldown ≡ b.cooldown)
      × (length (report b i now ok).states ≡ length b.states)
  unfolding report
  report-config = elim (Option-cases (get_elem? b.states i)) [
    | inl e ↦ ground arith
    | inr (st, e) ↦ ground (arith, length-set b.states i (note b.fail_threshold now ok st))
  ]

  pub report_self :
      (st : BreakerState)
      → get_elem? b.states i ≡ some st
      → get_elem? (report b i now ok).states i ≡ some (note b.fail_threshold now ok st)
  unfolding report
  report_self st e =
      let low = lt_of_get_elem? b.states i st e in
      ground (arith, get_elem?-set_self b.states i (note b.fail_threshold now ok st) low)

  -- The other members keep their states.
  pub report-other : (j : ℕ) → j ≢ i → get_elem? (report b i now ok).states j ≡ get_elem? b.states j
  unfolding report
  report-other j h = elim (Option-cases (get_elem? b.states i)) [
    | inl e ↦ ground arith
    | inr (st, e) ↦
        ground
          (arith, get_elem?-set_ne b.states i j (note b.fail_threshold now ok st) (λ p. h (sym p)))
  ]

module _ (b : Breaker) (i : ℕ) (now : ℤ) (st : BreakerState)
    (e : get_elem? b.states i ≡ some st) where
  -- A reported success lets the member back in, at whatever time it is asked for.
  pub open_locked-success : (later : ℤ) → open_locked (report b i now true) i later ≡ some false
  unfolding open_locked
  open_locked-success later =
      let self = report_self b i now true st e in
      ground (arith, self, note-success b.fail_threshold now st)

  -- A failure of a member that has failed often enough shuts it out for a full cooldown from now.
  pub open_locked-failure :
      (later : ℤ)
      → b.fail_threshold ≤ suc st.consecutive
      → open_locked (report b i now false) i later ≡ some (ltb_ℤ (later -ℤ now) b.cooldown)
  unfolding open_locked note
  open_locked-failure later h =
      ground (arith, report_self b i now false st e, report-config b i now false)
