-- ===== src/Race.antt =====
-- internal/scheduler/racing.go, racingUpstream: one query put to several upstreams at once. The
-- messages `M`, the errors `E` and the upstreams `U` are those of the libraries. The goroutines of a
-- query enter as the order in which they finish, with what each upstream answered.
pub mod Fastest
pub mod Winner
pub mod Exchange
use dnsproxy_router.Prelude.{
  ℕ, zero, suc, Bool, true, false, not, Option, none, some, List, [], ◌∷◌, ◌++◌, ltb, ◌==◌, ◌>>=◌,
  if◌then◌else◌, get_elem?, length, ◌&&◌,
}
use dnsproxy_router.Prelude.Int.{ℤ}
use dnsproxy_router.Prelude.Sort.{SliceSort}
use dnsproxy_router.Breaker.{Breaker, pick, report}

-- The pair `(*dns.Msg, error)` that `Exchange` returns; either part may be nil.
pub record Reply (M E : Type 0) : Type 0 where
  pub resp : Option M
  pub err : Option E

pub record Member (U : Type 0) : Type 0 where
  pub weight : ℕ
  pub upstream : U

pub record Race (U : Type 0) : Type 0 where
  pub members : List (Member U)
  pub window : ℤ
  pub weighted : Bool
  pub breaker : Option Breaker

pub record RaceResult (M E : Type 0) : Type 0 where
  pub weight : ℕ
  pub reply : Reply M E
  pub elapsed : ℕ

unfoldable pub new_racing : {U : Type 0} → List (Member U) → Bool → ℤ → Race U
new_racing members weighted window = record {
  members = members;
  window = window;
  weighted = weighted;
  breaker = none;
}

-- A goroutine of the query ends: member `member` answered `reply`, the clock shows `time` when it
-- reports. Between the goroutines the window's timer may fire.
pub data Event (M E : Type 0) : Type 0 where
  finished : (member : ℕ) (time : ℤ) (elapsed : ℕ) (reply : Reply M E) → Event M E
  timer : Event M E

-- 0, 1, …, the indices of the list
unfoldable pub indices_from {ℓ} : {A : Type ℓ} → ℕ → List A → List ℕ
indices_from i [] = []
indices_from i (x ∷ xs) = i ∷ indices_from (suc i) xs

module _ {U : Type 0} where
  unfoldable pub candidates : Race U → ℤ → Option (List ℕ)
  unfolding indices_from
  candidates r now = elim r.breaker [
    | none ↦ some (indices_from 0 r.members)
    | some b ↦ pick b (length r.members) now
  ]

  unfoldable pub report_member : {E : Type 0} → Race U → ℕ → ℤ → Option E → Race U
  report_member r i now err = elim r.breaker [
    | none ↦ r
    | some b ↦ record r {
      breaker = some (report b i now (elim err [ none ↦ true | some e ↦ false ]));
    }
  ]

module _ {M E : Type 0} where
  -- `res.err == nil && res.resp != nil`
  abbrev pub succeeded : RaceResult M E → Bool
  succeeded res = elim res.reply.err [
    | none ↦ elim res.reply.resp [ none ↦ false | some m ↦ true ]
    | some e ↦ false
  ]

  -- `cands[i].weight != cands[j].weight ? … : …`, the order of `pickWeighted`
  unfoldable pub heavier : RaceResult M E → RaceResult M E → Bool
  heavier a b =
      if not (a.weight == b.weight) then ltb b.weight a.weight else ltb a.elapsed b.elapsed

  -- the receive loop of `exchangeFastest`, with the receives left and `lastErr`; `none` means that
  -- it still waits
  unfoldable pub receive_fastest : E → ℕ → Option E → List (RaceResult M E) → Option (Reply M E)
  receive_fastest no_reply zero last results =
      some (record { resp = none; err = elim last [ none ↦ some no_reply | some e ↦ some e ] })
  receive_fastest no_reply (suc n) last [] = none
  receive_fastest no_reply (suc n) last (res ∷ results) =
      let next =
        receive_fastest no_reply n (elim res.reply.err [ none ↦ last | some e ↦ some e ]) results in
      if succeeded res then some (record { resp = res.reply.resp; err = none }) else next

  module _ (no_reply : E) (slices : SliceSort (RaceResult M E)) where
    -- `cands[0].resp` of the sorted slice
    unfoldable pub first_of_sorted : List (RaceResult M E) → Reply M E
    first_of_sorted [] = record { resp = none; err = some no_reply }
    first_of_sorted (c ∷ cands) = record { resp = c.reply.resp; err = none }

    unfoldable pub pick_weighted : List (RaceResult M E) → Reply M E
    unfolding first_of_sorted heavier
    pick_weighted [] = record { resp = none; err = some no_reply }
    pick_weighted (c ∷ cands) = first_of_sorted (slices.sort heavier (c ∷ cands))

    -- What the weighted loop waits on: a received result, or the timer if it is set.
    unfoldable pub receive_weighted :
        ℕ → List (RaceResult M E) → Bool → List (Option (RaceResult M E)) → Option (Reply M E)
    receive_weighted zero cands set inputs = some (pick_weighted cands)
    receive_weighted (suc n) cands set [] = none
    receive_weighted (suc n) cands set (some res ∷ inputs) =
        receive_weighted n (if succeeded res then cands ++ res ∷ [] else cands)
          (if succeeded res then true else set) inputs
    receive_weighted (suc n) cands true (none ∷ inputs) = some (pick_weighted cands)
    receive_weighted (suc n) cands false (none ∷ inputs) =
        receive_weighted (suc n) cands false inputs

module _ {M E : Type 0} where
  -- `exchangeFastest` sets no timer.
  abbrev pub received : List (Option (RaceResult M E)) → List (RaceResult M E)
  received [] = []
  received (none ∷ inputs) = received inputs
  received (some res ∷ inputs) = res ∷ received inputs

module _ {U M E : Type 0} where
  -- What a goroutine sends: its reply with the weight of `r.members[i]` (`none`: out of range).
  unfoldable pub arrival : Race U → Event M E → Option (Option (RaceResult M E))
  arrival r (finished i time elapsed reply) = do
    m ← get_elem? r.members i
    some (some (record { weight = m.weight; reply = reply; elapsed = elapsed }))
  arrival r timer = some none

  unfoldable pub arrivals : Race U → List (Event M E) → Option (List (Option (RaceResult M E)))
  unfolding arrival
  arrivals r [] = some []
  arrivals r (e ∷ events) = do
    input ← arrival r e
    inputs ← arrivals r events
    some (input ∷ inputs)

  -- Each goroutine reports its outcome before it sends, also when the query is answered already.
  unfoldable pub reports : Race U → List (Event M E) → Race U
  unfolding report_member
  reports r [] = r
  reports r (finished i time elapsed reply ∷ events) =
      reports (report_member r i time reply.err) events
  reports r (timer ∷ events) = reports r events

  module _ (no_reply : E) where
    unfoldable pub exchange_fastest : Race U → ℤ → List (Event M E) → Option (Reply M E × Race U)
    unfolding receive_fastest candidates arrivals reports
    exchange_fastest r now events = do
      idx ← candidates r now
      inputs ← arrivals r events
      reply ← receive_fastest no_reply (length idx) none (received inputs)
      some (reply, reports r events)

    module _ (slices : SliceSort (RaceResult M E)) where
      unfoldable pub exchange_weighted : Race U → ℤ → List (Event M E) → Option (Reply M E × Race U)
      unfolding receive_weighted pick_weighted candidates arrivals reports
      exchange_weighted r now events = do
        idx ← candidates r now
        inputs ← arrivals r events
        reply ← receive_weighted no_reply slices (length idx) [] false inputs
        some (reply, reports r events)

      -- `alone` is what the upstream of a single member answers; the breaker has no part in that.
      unfoldable pub exchange :
          E → (U → Reply M E) → Race U → ℤ → List (Event M E) → Option (Reply M E × Race U)
      unfolding exchange_fastest exchange_weighted
      exchange no_upstreams alone r now events = elim r.members [
        | [] ↦ some (record { resp = none; err = some no_upstreams }, r)
        | m ∷ [] ↦ some (alone m.upstream, r)
        | m ∷ m' ∷ ms ↦
            if r.weighted then exchange_weighted r now events else exchange_fastest r now events
      ]

-- `Close` closes every member and keeps the first error; `closing` is what `Close` of an upstream
-- returns.
unfoldable pub close_members :
    {U E : Type 0} → (U → Option E) → List (Member U) → Option E → Option E
close_members closing [] first = first
close_members closing (m ∷ ms) first =
    close_members closing ms (elim first [ none ↦ closing m.upstream | some e ↦ some e ])
