-- ===== src/Scheduler/Round/Open.antt =====
-- Over any rounds, no live upstream is closed.
use dnsproxy_router.Scheduler.Round.Settled.{Line, key_of}
use dnsproxy_router.Scheduler.Round.Origin.{Live, Holds}
use dnsproxy_router.Scheduler.Round.{Scheduler, line_key, selected_up, retire}
use mathlib.Core.Option.{some_inj}
use dnsproxy_router.Prelude.{
  ℕ, ◌<◌, ◌≡◌, ◌≢◌, ◌⊎◌, inl, inr, sym, ap, subst, ◌∙◌, Option, none, some, List, [], ◌∷◌, Bytes,
  bytes_discrete, lookup, insert, All, Any, arith, Option-cases, lookup-insert_self,
  lookup-insert_ne,
}
use dnsproxy_router.Prelude.Totals.{Distinct, insert-Distinct, lookup-head}
use dnsproxy_router.Scheduler.Closing.{All-map}

-- The numbers given out are below `next`; no upstream is live under two keys, and none that is live
-- is closed or has its timer set.
pub record IsSound (s : Scheduler) : Type 0 where
  pub distinct : Distinct bytes_discrete s.live
  pub below : (k : Bytes) (u : ℕ) → Holds s.live k u → u < s.next
  pub single : (j k : Bytes) (u : ℕ) → Holds s.live j u → Holds s.live k u → j ≡ k
  pub closed_below : All (λ c. c < s.next) s.closed
  pub retired_below : All (λ v. (u : ℕ) → v ≡ some u → u < s.next) s.retired
  pub alive : (k : Bytes) (u : ℕ) → Holds s.live k u → All (λ c. c ≢ u) s.closed
  pub timeless : (k : Bytes) (u : ℕ) → Holds s.live k u → All (λ v. v ≢ some u) s.retired

lookup-later :
    {V : Type 0} (j k : Bytes) (v w : V) (m : List (Bytes × V))
    → lookup bytes_discrete j m ≡ none
    → lookup bytes_discrete k m ≡ some w
    → lookup bytes_discrete k ((j, v) ∷ m) ≡ some w
unfolding lookup
lookup-later j k v w m h e = ground arith

-- What is retired was live, under a key that is not kept.
abbrev pub WasLive : Live → Live → Option ℕ → Type 0
WasLive live up v =
    (u : ℕ) → v ≡ some u → (k : Bytes) × Holds live k u × (lookup bytes_discrete k up ≡ none)

pub retire-WasLive :
    (live up : Live) → Distinct bytes_discrete live → All (WasLive live up) (retire live up)
unfolding retire
retire-WasLive [] up d = tt
retire-WasLive ((j, v) ∷ live) up d =
    let rest : All (WasLive ((j, v) ∷ live) up) (retire live up) =
      All-map
        (λ x h u e.
          let (k, held, gone) = h u e in (k, lookup-later j k v (some u) live d.0 held, gone))
        (retire live up) (retire-WasLive live up d.1) in
    elim (Option-cases (lookup bytes_discrete j up)) [
      | inl gone ↦
          rw (gone, retire)
            ((λ u e. (j, lookup-head bytes_discrete j v live ∙ ap some e, gone)), rest)
      | inr (w, kept) ↦ rw (kept, retire) rest
    ]

-- What a new table holds comes from a selected line.
selected_up-line :
    (selected : List Line) (up : Live) (k : Bytes) (u : ℕ)
    → Holds (selected_up selected up) k u
    → Any (λ p. (key_of p ≡ k) × (p.1.upstream ≡ some u)) selected ⊎ Holds up k u
unfolding selected_up
selected_up-line [] up k u h = inr h
selected_up-line ((name, b) ∷ selected) up k u h =
    elim (selected_up-line selected (insert bytes_discrete (line_key name b.addr) b.upstream up) k u
      h) [
        | inl there ↦ inl (inr there)
        | inr now ↦ elim (bytes_discrete k (line_key name b.addr)) [
          | yes same ↦ inl (
              inl (
                sym same,
                some_inj.0 (
                    sym (lookup-insert_self bytes_discrete (line_key name b.addr) b.upstream up)
                    ∙ subst
                        (λ x.
                          lookup bytes_discrete x
                            (insert bytes_discrete (line_key name b.addr) b.upstream up)
                          ≡ some (some u))
                        same now),
              ))
          | no different ↦ inr (
              sym (lookup-insert_ne bytes_discrete (line_key name b.addr) k b.upstream up different)
              ∙ now)
        ]
      ]

pub selected_up-Distinct :
    (selected : List Line) (up : Live)
    → Distinct bytes_discrete up
    → Distinct bytes_discrete (selected_up selected up)
unfolding selected_up
selected_up-Distinct [] up d = d
selected_up-Distinct ((name, b) ∷ selected) up d =
    selected_up-Distinct selected (insert bytes_discrete (line_key name b.addr) b.upstream up)
      (insert-Distinct bytes_discrete (line_key name b.addr) b.upstream up d)

pub nothing_held : (k : Bytes) (u : ℕ) → ¬ Holds [] k u
unfolding lookup
nothing_held k u h = ground arith

-- The line among those selected that a key of the new table has.
pub line_of :
    (selected : List Line) (k : Bytes) (u : ℕ)
    → Holds (selected_up selected []) k u
    → Any (λ p. (key_of p ≡ k) × (p.1.upstream ≡ some u)) selected
line_of selected k u h = elim (selected_up-line selected [] k u h) [
  | inl there ↦ there
  | inr held ↦ absurd (nothing_held k u held)
]

pub among :
    {A : Type 0} {P Q : A → Type 0} (xs : List A) → All P xs → Any Q xs → (a : A) × P a × Q a
among [] h m = absurd m
among (x ∷ xs) h (inl q) = (x, h.0, q)
among (x ∷ xs) h (inr m) = among xs h.1 m
