-- ===== src/Breaker/Candidates.antt =====
-- Which members `pick` lets take part in a round.
use dnsproxy_router.Prelude.{
  ℕ, zero, suc, ◌+◌, ◌<◌, ◌≤◌, ◌≡◌, refl, Bool, true, not, none, some, List, [], ◌∷◌, arith,
  get_elem?, filterb,
}
use dnsproxy_router.Prelude.Int.{ℤ, leb_ℤ, ◌+ℤ◌, ◌-ℤ◌}
use dnsproxy_router.Breaker.{
  Breaker, BreakerState, new_breaker, cooling, open_locked, pick_from, pick,
}
use dnsproxy_router.Breaker.History.{
  Outcome, after, of_member, summary, after-config, after-summary,
}

abbrev pub range_from : ℕ → ℕ → List ℕ
range_from i zero = []
range_from i (suc n) = i ∷ range_from (suc i) n

-- Shut out means: opened, and the cooldown from then on is not over.
abbrev pub admits : ℤ → ℤ → BreakerState → Bool
admits cooldown now st = elim st.opened_at [ none ↦ true | some t ↦ leb_ℤ (t +ℤ cooldown) now ]

cooling-admits :
    (cooldown now : ℤ) (st : BreakerState) → cooling cooldown now st ≡ not (admits cooldown now st)
unfolding cooling ◌-ℤ◌ ◌+ℤ◌
cooling-admits cooldown now st = ground arith

-- A run of `pick` over members whose states are known.
pub pick_from-filterb :
    (b : Breaker) (cooldown now : ℤ) (state : ℕ → BreakerState) (n i : ℕ)
    → b.cooldown ≡ cooldown
    → ((j : ℕ) → j < i + n → get_elem? b.states j ≡ some (state j))
    → pick_from b n i now ≡ some (filterb (λ j. admits cooldown now (state j)) (range_from i n))
unfolding pick_from open_locked
pick_from-filterb b cooldown now state zero i e h = refl
pick_from-filterb b cooldown now state (suc n) i e h = ground (
  arith,
  h i (omega arith),
  cooling-admits cooldown now (state i),
  pick_from-filterb b cooldown now state n (suc i) e (λ j lt. h j (omega arith)),
)

-- After any history, a round over the members takes, in ascending order, exactly those with fewer
-- failures since their last success than the threshold, and those whose latest outcome is at
-- least a cooldown ago; `pick` does not fail.
pub pick-after :
    (n threshold : ℕ) (cooldown : ℤ) (os : List Outcome) (now : ℤ)
    → 1 ≤ threshold
    → pick (after (new_breaker n threshold cooldown) os) n now
      ≡ some
          (filterb (λ i. admits cooldown now (summary threshold (of_member i os))) (range_from 0 n))
unfolding pick new_breaker
pick-after n threshold cooldown os now h =
    let b = new_breaker n threshold cooldown in
    pick_from-filterb (after b os) cooldown now (λ i. summary threshold (of_member i os)) n 0
      (after-config b os).1 (λ j lt. after-summary n threshold cooldown os j h (omega arith))
