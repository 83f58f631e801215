-- ===== src/Race/Exchange.antt =====
-- A whole query: the candidates of the round, the goroutines' answers, and the breaker's records.
use dnsproxy_router.Breaker.{Breaker, new_breaker}
use dnsproxy_router.Breaker.History.{Outcome, after, of_member, summary}
use dnsproxy_router.Prelude.{
  true, false, get_elem?, ℕ, ◌<◌, ◌≤◌, ◌≡◌, refl, Option, none, some, List, [], ◌∷◌, arith, length,
  All, get_elem?-some,
}
use dnsproxy_router.Prelude.Int.{ℤ}
use dnsproxy_router.Prelude.Sort.{SliceSort}
use dnsproxy_router.Race.{
  Reply, RaceResult, Race, Event, finished, timer, candidates, arrivals, received, reports,
  receive_fastest, receive_weighted, pick_weighted, exchange,
}

module _ {M E : Type 0} where
  -- The members whose goroutines end.
  abbrev pub finishers : List (Event M E) → List ℕ
  finishers [] = []
  finishers (finished i time elapsed reply ∷ events) = i ∷ finishers events
  finishers (timer ∷ events) = finishers events

-- What the goroutines' ends add to a history of outcomes, newest first: an end without an error is a
-- success.
abbrev pub told : {M E : Type 0} → List Outcome → List (Event M E) → List Outcome
told past [] = past
told past (finished i time elapsed reply ∷ events) =
    told
      (record { member = i; time = time; ok = elim reply.err [ none ↦ true | some e ↦ false ] }
        ∷ past)
      events
told past (timer ∷ events) = told past events

-- The breaker of `n` members after a history; `none` is a race without a breaker.
abbrev pub guard : ℕ → ℕ → ℤ → Option (List Outcome) → Option Breaker
guard n threshold cooldown none = none
guard n threshold cooldown (some past) = some (after (new_breaker n threshold cooldown) past)

-- The breaker knows of each member the streak of the history, and the goroutines' ends since.
abbrev pub Knows :
    {M E : Type 0} → ℕ → ℕ → Option (List Outcome) → List (Event M E) → Option Breaker → Type 0
Knows n threshold none events breaker = breaker ≡ none
Knows n threshold (some past) events breaker =
    (b : Breaker) × (breaker ≡ some b)
    × ((i : ℕ)
        → i < n
        → get_elem? b.states i ≡ some (summary threshold (of_member i (told past events))))

module _ {U M E : Type 0} where
  pub arrivals-total :
      (r : Race U) (events : List (Event M E))
      → All (λ i. i < length r.members) (finishers events)
      → (inputs : List (Option (RaceResult M E))) × (arrivals r events ≡ some inputs)
        × (length (received inputs) ≡ length (finishers events))
  unfolding arrivals
  arrivals-total r [] h = ([], refl, refl)
  arrivals-total r (finished i time elapsed reply ∷ events) h =
      let (m, at) = get_elem?-some r.members i h.0 in
      let (inputs, got, count) = arrivals-total r events h.1 in
      (
        some (record { weight = m.weight; reply = reply; elapsed = elapsed }) ∷ inputs,
        ground arith,
        omega (arith, count),
      )
  arrivals-total r (timer ∷ events) h =
      let (inputs, got, count) = arrivals-total r events h in (none ∷ inputs, rw got, count)

  module _ (no_reply : E) where
    -- With every member shut out, a query of either mode fails at once with `ErrNoReply`: it waits
    -- for nothing.
    pub exchange-fail_fast :
        (slices : SliceSort (RaceResult M E)) (no_upstreams : E) (alone : U → Reply M E)
        (r : Race U) (now : ℤ)
        → 2 ≤ length r.members
        → candidates r now ≡ some []
        → exchange no_reply slices no_upstreams alone r now []
          ≡ some (record { resp = none; err = some no_reply }, r)
    unfolding exchange pick_weighted receive_weighted receive_fastest arrivals reports
    exchange-fail_fast slices no_upstreams alone r now two hc = ground arith
