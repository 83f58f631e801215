-- ===== src/Breaker.antt =====
-- internal/scheduler/breaker.go: the circuit breaker over the members of an aggregated upstream.
-- A time is an integer of nanoseconds and an argument of each operation that reads the clock; the
-- zero `time.Time` (no circuit opened) is `none`. Logging is left out.
pub mod Outcomes
pub mod History
pub mod Candidates
use dnsproxy_router.Prelude.{
  ℕ, zero, suc, Bool, true, false, Option, none, some, List, [], ◌∷◌, leb, ◌>>=◌, if◌then◌else◌,
  get_elem?, set, replicate, ◌==◌,
}
use dnsproxy_router.Prelude.Int.{ℤ, ltb_ℤ, ◌-ℤ◌}

pub record BreakerState : Type 0 where
  pub consecutive : ℕ
  pub opened_at : Option ℤ

pub record Breaker : Type 0 where
  pub fail_threshold : ℕ
  pub cooldown : ℤ
  pub states : List BreakerState

-- the zero value of `breakerState`
abbrev pub fresh : BreakerState
fresh = record { consecutive = 0; opened_at = none }

unfoldable pub new_breaker : ℕ → ℕ → ℤ → Breaker
new_breaker n fail_threshold cooldown = record {
  fail_threshold = fail_threshold;
  cooldown = cooldown;
  states = replicate n fresh;
}

-- the test of `openLocked` on the state that `b.states[i]` holds
unfoldable pub cooling : ℤ → ℤ → BreakerState → Bool
unfolding ◌-ℤ◌
cooling cooldown now st = elim st.opened_at [ none ↦ false | some t ↦ ltb_ℤ (now -ℤ t) cooldown ]

-- `none` is the panic of an index out of range.
unfoldable pub open_locked : Breaker → ℕ → ℤ → Option Bool
unfolding cooling
open_locked b i now = do st ← get_elem? b.states i; some (cooling b.cooldown now st)

-- the loop of `pick`, with the rounds left, the counter `i` and the clock's reading
unfoldable pub pick_from : Breaker → ℕ → ℕ → ℤ → Option (List ℕ)
unfolding open_locked
pick_from b zero i now = some []
pick_from b (suc rounds) i now = do
  shut ← open_locked b i now
  rest ← pick_from b rounds (suc i) now
  some (if shut then rest else i ∷ rest)

unfoldable pub pick : Breaker → ℕ → ℤ → Option (List ℕ)
unfolding pick_from
pick b n now = pick_from b n 0 now

-- the new state of a member after one outcome: `true` is `err == nil`
unfoldable pub note : ℕ → ℤ → Bool → BreakerState → BreakerState
note threshold now true st = elim st.opened_at [
  | none ↦ if st.consecutive == 0 then st else fresh
  | some t ↦ fresh
]
note threshold now false st =
    let n = suc st.consecutive in
    record { consecutive = n; opened_at = if leb threshold n then some now else st.opened_at }

unfoldable pub report : Breaker → ℕ → ℤ → Bool → Breaker
unfolding note
report b i now ok = elim (get_elem? b.states i) [
  | none ↦ b
  | some st ↦ record b { states = set b.states i (note b.fail_threshold now ok st) }
]
