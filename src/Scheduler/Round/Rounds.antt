-- ===== src/Scheduler/Round/Rounds.antt =====
-- Each round of the scheduler, and so any number of them, leaves the live upstreams open.
use dnsproxy_router.Scheduler.Round.Open.{
  IsSound, WasLive, retire-WasLive, selected_up-Distinct, nothing_held, line_of, among,
}
use dnsproxy_router.Scheduler.Round.Settled.{Line, IsTidy, settle-IsTidy}
use dnsproxy_router.Scheduler.Round.Origin.{Live, Holds}
use dnsproxy_router.Scheduler.Round.Retired.{if_both}
use dnsproxy_router.Scheduler.Round.{
  Scheduler, new, Probe, probe_all, settle, selected_up, retire, is_same, is_some, signature_of,
  adopt, reselect, probe_and_select,
}
use dnsproxy_router.Prelude.{
  ℕ, ◌≤◌, ◌<◌, ◌≡◌, ◌≢◌, ◌⊎◌, inl, inr, sym, ap, subst, ◌∙◌, ◌&&◌, Option, none, some, List, [],
  ◌∷◌, ◌++◌, Bytes, bytes_discrete, lookup, All, arith, All-append,
}
use dnsproxy_router.Prelude.Sort.{SliceSort}
use dnsproxy_router.Config.{Config}
use dnsproxy_router.Scheduler.Closing.{All-map}

module _ (s : Scheduler) (v : IsSound s) (selected : List Line) (gone : List ℕ) (end : ℕ)
    (more : s.next ≤ end) (tidy : IsTidy s.live s.next end selected gone) where
  abbrev here : Scheduler
  here = record s { next = end; closed = s.closed ++ gone }

  here-IsSound : IsSound here
  here-IsSound = record {
    distinct = v.distinct;
    below = λ k u h. omega (arith, v.below k u h);
    single = v.single;
    closed_below =
        All-append (λ c. c < end) s.closed gone
          (All-map (λ c h. omega arith) s.closed v.closed_below)
          (All-map (λ c (a, b). b) gone tidy.made);
    retired_below = All-map (λ x h u e. omega (arith, h u e)) s.retired v.retired_below;
    alive = λ k u h.
        All-append (λ c. c ≢ u) s.closed gone (v.alive k u h)
          (All-map (λ c (a, b) e. absurd (omega (arith, v.below k u h))) gone tidy.made);
    timeless = v.timeless;
  }

  abbrev up : Live
  up = selected_up selected []

  -- Where the upstream of a new live line is from.
  origin_of : (k : Bytes) (u : ℕ) → Holds up k u → Holds s.live k u ⊎ ((s.next ≤ u) × (u < end))
  origin_of k u h =
      let (p, from, (e, w)) = among selected tidy.origin (line_of selected k u h) in
      elim (from u w) [
        | inl held ↦ inl (subst (λ x. Holds s.live x u) e held)
        | inr range ↦ inr range
      ]

  up_below : (k : Bytes) (u : ℕ) → Holds up k u → u < end
  up_below k u h = elim (origin_of k u h) [
    | inl held ↦ omega (arith, v.below k u held)
    | inr (a, b) ↦ b
  ]

  up_single : (j k : Bytes) (u : ℕ) → Holds up j u → Holds up k u → j ≡ k
  up_single j k u h h' =
      let (p, one, (e, w)) = among selected tidy.one (line_of selected j u h) in
      let (q, same, (e', w')) = among selected one (line_of selected k u h') in
      sym e ∙ same u w w' ∙ e'

  up_alive : (k : Bytes) (u : ℕ) → Holds up k u → All (λ c. c ≢ u) (s.closed ++ gone)
  up_alive k u h =
      All-append (λ c. c ≢ u) s.closed gone
        (elim (origin_of k u h) [
          | inl held ↦ v.alive k u held
          | inr (a, b) ↦ All-map (λ c l e. absurd (omega arith)) s.closed v.closed_below
        ])
        (All-map
          (λ c apart e.
            let (p, ne, (x, w)) = among selected apart (line_of selected k u h) in
            ne (w ∙ ap some (sym e)))
          gone tidy.apart)

  not_retired :
      (k : Bytes) (u : ℕ) → Holds up k u → (x : Option ℕ) → WasLive s.live up x → x ≢ some u
  not_retired k u h x was e =
      let (j, held, dropped) = was u e in
      elim (origin_of k u h) [
        | inl mine ↦
            let same : lookup bytes_discrete k up ≡ none =
              subst (λ y. lookup bytes_discrete y up ≡ none) (v.single j k u held mine) dropped in
            absurd (ground (arith, same, h))
        | inr (a, b) ↦ absurd (omega (arith, v.below j u held))
      ]

  up_timeless :
      (k : Bytes) (u : ℕ) → Holds up k u → All (λ x. x ≢ some u) (s.retired ++ retire s.live up)
  up_timeless k u h =
      All-append (λ x. x ≢ some u) s.retired (retire s.live up)
        (elim (origin_of k u h) [
          | inl held ↦ v.timeless k u held
          | inr (a, b) ↦ All-map (λ x l e. absurd (omega (arith, l u e))) s.retired v.retired_below
        ])
        (All-map (λ x was. not_retired k u h x was) (retire s.live up)
          (retire-WasLive s.live up v.distinct))

  adopt-IsSound :
      (slices : SliceSort Bytes) (cfg : Config) → IsSound (adopt slices cfg here selected)
  unfolding adopt
  adopt-IsSound slices cfg = record {
    distinct = selected_up-Distinct selected [] tt;
    below = up_below;
    single = up_single;
    closed_below = here-IsSound.closed_below;
    retired_below =
        All-append (λ x. (u : ℕ) → x ≡ some u → u < end) s.retired (retire s.live up)
          here-IsSound.retired_below
          (All-map
            (λ x was u e. let (k, held, dropped) = was u e in omega (arith, v.below k u held))
            (retire s.live up) (retire-WasLive s.live up v.distinct));
    alive = up_alive;
    timeless = up_timeless;
  }

module _ (slices : SliceSort Bytes) (cfg : Config) where
  pub round-IsSound :
      (s : Scheduler) (met : List (Bytes × List Probe))
      → IsSound s
      → IsSound (probe_and_select slices cfg s met)
  unfolding probe_and_select reselect
  round-IsSound s met v =
      let probed = probe_all s.live s.next met in
      let settled = settle probed.0 [] [] in
      let (more, tidy) = settle-IsTidy s.live s.next v.below v.single met in
      if_both IsSound (is_same (signature_of slices cfg settled.0) s.signature && is_some s.current)
        (here s v settled.0 settled.1 probed.1 more tidy)
        (adopt slices cfg (here s v settled.0 settled.1 probed.1 more tidy) settled.0)
        (here-IsSound s v settled.0 settled.1 probed.1 more tidy)
        (adopt-IsSound s v settled.0 settled.1 probed.1 more tidy slices cfg)

  -- the rounds of `Start`, one after the other
  unfoldable pub rounds : List (List (Bytes × List Probe)) → Scheduler → Scheduler
  rounds [] s = s
  rounds (met ∷ later) s = rounds later (probe_and_select slices cfg s met)

  rounds_keep :
      (mets : List (List (Bytes × List Probe))) (s : Scheduler)
      → IsSound s
      → IsSound (rounds mets s)
  unfolding rounds
  rounds_keep [] s v = v
  rounds_keep (met ∷ later) s v =
      rounds_keep later (probe_and_select slices cfg s met) (round-IsSound s met v)

  pub new-IsSound : IsSound new
  unfolding new
  new-IsSound = record {
    distinct = tt;
    below = λ k u h. absurd (nothing_held k u h);
    single = λ j k u h h'. absurd (nothing_held k u h');
    closed_below = tt;
    retired_below = tt;
    alive = λ k u h. tt;
    timeless = λ k u h. tt;
  }

  -- After any rounds of a new scheduler, whatever the probes meet and in whatever order they end: no
  -- upstream is live under two keys, and none that is live was closed or has its timer set.
  pub rounds-new-IsSound : (mets : List (List (Bytes × List Probe))) → IsSound (rounds mets new)
  rounds-new-IsSound mets = rounds_keep mets new new-IsSound
