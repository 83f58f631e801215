-- ===== src/Scheduler/Round/Settled.antt =====
-- What the providers' parts of a round leave: no selected upstream is closed, and none is selected
-- under two keys.
use dnsproxy_router.Scheduler.Round.Reuse.{settle_provider-keeps, insert-All}
use dnsproxy_router.Scheduler.Round.Origin.{Live, Holds, IsFrom, probe_provider-IsFrom}
use dnsproxy_router.Scheduler.Round.{Probe, line_key, probe_provider, probe_all, select, settle}
use dnsproxy_router.Prelude.{
  ℕ, ◌≤◌, ◌<◌, ◌≡◌, ◌≢◌, ◌⊎◌, inl, inr, refl, sym, true, Option, none, some, List, [], ◌∷◌, ◌++◌,
  Bytes, bytes_discrete, insert, All, Any, arith, All-append,
}
use dnsproxy_router.Scheduler.{ProbeResult, settle_provider}
use dnsproxy_router.Scheduler.Closing.{IsClosable, upstream_of, settle_provider-closes, All-map}

abbrev pub Line : Type 0
Line = Bytes × ProbeResult

abbrev pub key_of : Line → Bytes
key_of p = line_key p.0 p.1.addr

abbrev pub IsOne : Line → Line → Type 0
IsOne p q = (u : ℕ) → p.1.upstream ≡ some u → q.1.upstream ≡ some u → key_of p ≡ key_of q

-- The lines and the closed upstreams of the providers so far, in a round that began at `lo`.
pub record IsTidy (live : Live) (lo hi : ℕ) (selected : List Line) (closed : List ℕ) : Type 0 where
  pub origin :
      All
        (λ p. (u : ℕ) → p.1.upstream ≡ some u → Holds live (key_of p) u ⊎ ((lo ≤ u) × (u < hi)))
        selected
  pub made : All (λ c. (lo ≤ c) × (c < hi)) closed
  pub apart : All (λ c. All (λ p. p.1.upstream ≢ some c) selected) closed
  pub one : All (λ p. All (IsOne p) selected) selected

All-both :
    {A : Type 0} {P Q R : A → Type 0}
    → ((a : A) → P a → Q a → R a)
    → (xs : List A) → All P xs
    → All Q xs
    → All R xs
All-both f [] h k = tt
All-both f (x ∷ xs) h k = (f x h.0 k.0, All-both f xs h.1 k.1)

module _ (live : Live) (lo : ℕ) (below : (k : Bytes) (u : ℕ) → Holds live k u → u < lo)
    (single : (j k : Bytes) (u : ℕ) → Holds live j u → Holds live k u → j ≡ k) (next hi : ℕ)
    (start : lo ≤ next) (later : next ≤ hi) (name : Bytes) where
  abbrev IsOf : ℕ → Line → Type 0
  IsOf end p = (u : ℕ) → p.1.upstream ≡ some u → Holds live (key_of p) u ⊎ ((lo ≤ u) × (u < end))

  wider : (p : Line) → IsOf next p → IsOf hi p
  wider p h u e = elim (h u e) [ inl a ↦ inl a | inr (a, b) ↦ inr (a, omega arith) ]

  IsOf-result : (b : ProbeResult) → IsFrom live next hi name b → IsOf hi (name, b)
  IsOf-result b h u e = elim (h u e) [ inl (f, a) ↦ inl a | inr (f, a, c) ↦ inr (omega arith, c) ]

  -- A line from before is not one of those that this provider makes.
  old_apart : (p : Line) (c : ℕ) → IsOf next p → next ≤ c → p.1.upstream ≢ some c
  old_apart p c h k e = elim (h c e) [
    | inl a ↦ absurd (omega (arith, below (key_of p) c a))
    | inr (a, b) ↦ absurd (omega arith)
  ]

  new_apart :
      (b : ProbeResult) (c : ℕ)
      → IsFrom live next hi name b
      → lo ≤ c
      → c < next
      → b.upstream ≢ some c
  new_apart b c h k l e = elim (h c e) [
    | inl (f, a) ↦ absurd (omega (arith, below (line_key name b.addr) c a))
    | inr (f, a, d) ↦ absurd (omega arith)
  ]

  new-IsOne :
      (b : ProbeResult) (p : Line) → IsFrom live next hi name b → IsOf next p → IsOne (name, b) p
  new-IsOne b p h k u e d = elim (h u e) [
    | inl (f, a) ↦ elim (k u d) [
      | inl a' ↦ single (line_key name b.addr) (key_of p) u a a'
      | inr (x, y) ↦ absurd (omega (arith, below (line_key name b.addr) u a))
    ]
    | inr (f, x, y) ↦ absurd (old_apart p u k x d)
  ]

  closable_made :
      (keep : Option ℕ) (results : List ProbeResult) (c : ℕ)
      → All (IsFrom live next hi name) results
      → Any (λ r. (r.fresh ≡ true) × (r.upstream ≡ some c)) results
      → (next ≤ c) × (c < hi)
  closable_made keep [] c h m = absurd m
  closable_made keep (r ∷ rs) c h (inl (f, e)) = elim (h.0 c e) [
    | inl (g, a) ↦ absurd (ground arith)
    | inr (g, a, b) ↦ (a, b)
  ]
  closable_made keep (r ∷ rs) c h (inr m) = closable_made keep rs c h.1 m

  module _ (selected : List Line) (closed : List ℕ) (s : IsTidy live lo next selected closed)
      (gone : List ℕ) (range : All (λ c. (next ≤ c) × (c < hi)) gone) where
    closed_made : All (λ c. (lo ≤ c) × (c < hi)) (closed ++ gone)
    closed_made =
        All-append (λ c. (lo ≤ c) × (c < hi)) closed gone
          (All-map (λ c (a, b). (a, omega arith)) closed s.made)
          (All-map (λ c (a, b). (omega arith, b)) gone range)

    none-IsTidy : IsTidy live lo hi selected (closed ++ gone)
    none-IsTidy = record {
      origin = All-map wider selected s.origin;
      made = closed_made;
      apart =
          All-append (λ c. All (λ p. p.1.upstream ≢ some c) selected) closed gone s.apart
            (All-map (λ c (a, b). All-map (λ p h. old_apart p c h a) selected s.origin) gone range);
      one = s.one;
    }

    some-IsTidy :
        (b : ProbeResult)
        → IsFrom live next hi name b
        → All (λ c. b.upstream ≢ some c) gone
        → IsTidy live lo hi (insert bytes_discrete name b selected) (closed ++ gone)
    some-IsTidy b h k = record {
      origin = insert-All (IsOf hi) name b selected (IsOf-result b h) none-IsTidy.origin;
      made = closed_made;
      apart =
          All-append (λ c. All (λ p. p.1.upstream ≢ some c) (insert bytes_discrete name b selected))
            closed gone
            (All-both
              (λ c (a, d) o.
                insert-All (λ p. p.1.upstream ≢ some c) name b selected (new_apart b c h a d) o)
              closed s.made s.apart)
            (All-both
              (λ c (a, d) o.
                insert-All (λ p. p.1.upstream ≢ some c) name b selected o
                  (All-map (λ p h. old_apart p c h a) selected s.origin))
              gone range k);
      one =
          insert-All (λ p. All (IsOne p) (insert bytes_discrete name b selected)) name b selected
            (insert-All (IsOne (name, b)) name b selected (λ u e d. refl)
              (All-map (λ p o. new-IsOne b p h o) selected s.origin))
            (All-both
              (λ p o one.
                insert-All (IsOne p) name b selected (λ u e d. sym (new-IsOne b p h o u d e)) one)
              selected s.origin s.one);
    }

  provider-IsTidy :
      (results : List ProbeResult) (selected : List Line) (closed : List ℕ)
      → All (IsFrom live next hi name) results
      → IsTidy live lo next selected closed
      → IsTidy live lo hi
          (select name (settle_provider results).0 selected)
          (closed ++ (settle_provider results).1)
  provider-IsTidy results selected closed all s =
      let (best, closable, rest) = settle_provider-closes results in
      of_best (settle_provider results).0 (settle_provider results).1 refl closable
    where
      of_best :
          (best : Option ProbeResult) (gone : List ℕ)
          → (settle_provider results).0 ≡ best
          → All (IsClosable (upstream_of best) results) gone
          → IsTidy live lo hi (select name best selected) (closed ++ gone)
      of_best none gone e c =
          none-IsTidy selected closed s gone
            (All-map (λ u (a, m). closable_made none results u all m) gone c)
      of_best (some b) gone e c =
          some-IsTidy selected closed s gone
            (All-map (λ u (a, m). closable_made none results u all m) gone c) b
            (settle_provider-keeps (IsFrom live next hi name) results b all e)
            (All-map (λ u (a, m). a) gone c)

module _ (live : Live) (lo : ℕ) (below : (k : Bytes) (u : ℕ) → Holds live k u → u < lo)
    (single : (j k : Bytes) (u : ℕ) → Holds live j u → Holds live k u → j ≡ k) where
  settle_from-IsTidy :
      (next : ℕ) (providers : List (Bytes × List Probe)) (selected : List Line) (closed : List ℕ)
      → lo ≤ next
      → IsTidy live lo next selected closed
      → let (probes, end) = probe_all live next providers in
        let settled = settle probes selected closed in
        (next ≤ end) × IsTidy live lo end settled.0 settled.1
  unfolding probe_all settle
  settle_from-IsTidy next [] selected closed h s = (omega arith, s)
  settle_from-IsTidy next ((name, probes) ∷ providers) selected closed h s =
      let (up, all) = probe_provider-IsFrom live next name probes in
      let hi = (probe_provider live next name probes).1 in
      let results = (probe_provider live next name probes).0 in
      let (more, rest) =
        settle_from-IsTidy hi providers (select name (settle_provider results).0 selected)
          (closed ++ (settle_provider results).1) (omega arith)
          (provider-IsTidy live lo below single next hi h up name results selected closed all s) in
      (omega arith, rest)

  -- The lines that a round selects and the upstreams that it closes.
  pub settle-IsTidy :
      (providers : List (Bytes × List Probe))
      → let (probes, end) = probe_all live lo providers in
        let settled = settle probes [] [] in (lo ≤ end) × IsTidy live lo end settled.0 settled.1
  settle-IsTidy providers =
      settle_from-IsTidy lo providers [] [] (omega arith)
        (record { origin = tt; made = tt; apart = tt; one = tt })
