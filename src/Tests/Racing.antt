-- ===== src/Tests/Racing.antt =====
-- Queries to three upstreams; a message and an error are a number.
use mathlib.Core.List.{Mem}
use dnsproxy_router.Prelude.{
  ℕ, ◌≡◌, ◌⊎◌, refl, false, none, some, List, [], ◌∷◌, arith, map, filterb,
}
use dnsproxy_router.Prelude.Int.{pos}
use dnsproxy_router.Prelude.Sort.{by_insertion}
use dnsproxy_router.Breaker.History.{Outcome}
use dnsproxy_router.Race.{
  Reply, Member, Race, RaceResult, Event, finished, succeeded, receive_weighted,
}
use dnsproxy_router.Race.Winner.{IsBetter, window-best, complete-best}
use dnsproxy_router.Race.Exchange.{guard}

abbrev Answer : Type 0
Answer = RaceResult ℕ ℕ

abbrev answered : ℕ → Reply ℕ ℕ
answered m = record { resp = some m; err = none }

abbrev refused : ℕ → Reply ℕ ℕ
refused e = record { resp = none; err = some e }

abbrev light : Answer
light = record { weight = 1; reply = answered 11; elapsed = 10 }

abbrev heavy : Answer
heavy = record { weight = 5; reply = answered 22; elapsed = 40 }

abbrev failed : Answer
failed = record { weight = 9; reply = refused 99; elapsed = 5 }

-- The timer fires before the fourth of four answers.
window-best_example :
    (win : Answer) × (receive_weighted 0 by_insertion 4 [] false
        (some failed ∷ some light ∷ some heavy ∷ none ∷ [])
      ≡ some (record { resp = win.reply.resp; err = none }))
    × Mem win (light ∷ heavy ∷ [])
    × ((d : Answer) → Mem d (light ∷ heavy ∷ []) → IsBetter win d)
window-best_example =
    window-best 0 by_insertion 4 (failed ∷ []) (heavy ∷ []) light [] (refl, tt) refl (omega arith)

abbrev answers : List Answer
answers = failed ∷ light ∷ heavy ∷ []

complete-best_example :
    ((filterb succeeded answers ≡ [])
      × (receive_weighted 0 by_insertion 3 [] false (map some answers)
          ≡ some (record { resp = none; err = some 0 })))
    ⊎ ((win : Answer) × (receive_weighted 0 by_insertion 3 [] false (map some answers)
          ≡ some (record { resp = win.reply.resp; err = none }))
        × Mem win (filterb succeeded answers)
        × ((d : Answer) → Mem d (filterb succeeded answers) → IsBetter win d))
complete-best_example = complete-best 0 by_insertion answers

abbrev two_members : List (Member ℕ)
two_members = record { weight = 1; upstream = 0 } ∷ record { weight = 2; upstream = 1 } ∷ []

-- Member 1 has failed once; another failure opens its circuit.
abbrev past : List Outcome
past = record { member = 1; time = pos 1; ok = false } ∷ []

abbrev open_race : Race ℕ
open_race = record {
  members = two_members;
  window = pos 5;
  weighted = false;
  breaker = guard 2 2 (pos 10) (some past);
}

abbrev events : List (Event ℕ ℕ)
events = finished 1 (pos 3) 3 (refused 8) ∷ finished 0 (pos 4) 4 (answered 7) ∷ []
