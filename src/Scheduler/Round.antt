-- ===== src/Scheduler/Round.antt =====
-- internal/scheduler/scheduler.go, probeProvider and probeAndSelect: a round from the probes' outcomes
-- to the new selection. The upstreams that a round makes are numbered on from `next`; `closed` are
-- those on which `Close` was called, `retired` those for which the timer that calls it was set.
pub mod Reuse
pub mod Retired
pub mod Clamped
pub mod Origin
pub mod Settled
pub mod Open
pub mod Rounds
use dnsproxy_router.Prelude.{
  ℕ, suc, length, Bool, true, false, Option, none, some, List, [], ◌∷◌, ◌++◌, map, Bytes,
  bytes_discrete, lookup, insert, ◌&&◌, if◌then◌else◌,
}
use dnsproxy_router.Prelude.Int.{ℤ, pos, pos_part, ltb_ℤ}
use dnsproxy_router.Prelude.Sort.{SliceSort}
use dnsproxy_router.Config.{
  Config, weight, Named, known, other, EvictionName, fifo, lru, lfu, RaceMode, weighted, fastest,
}
use dnsproxy_router.Config.Normal.{value_or}
use dnsproxy_router.Cache
use dnsproxy_router.Cache.{Cache, Policy, unset, unknown}
use dnsproxy_router.Race.{Race, Member, new_racing}
use dnsproxy_router.Breaker.{new_breaker}
use dnsproxy_router.Scheduler.{ProbeResult, settle_provider, select_signature}

-- The one upstream of a selection's routes: the racing one, and the cache in front of it if there is
-- one.
pub record Aggregate : Type 0 where
  pub racing : Race (Option ℕ)
  pub cache : Option Cache

-- `current` is the upstream that the routes use.
pub record Scheduler : Type 0 where
  pub live : List (Bytes × Option ℕ)
  pub signature : Bytes
  pub current : Option Aggregate
  pub next : ℕ
  pub closed : List ℕ
  pub retired : List (Option ℕ)

-- `New`
unfoldable pub new : Scheduler
new = record { live = []; signature = []; current = none; next = 0; closed = []; retired = [] }

-- What a probe of a line meets: whether its address gives an upstream, if one has to be made, and
-- what `probeMode` returns. A mode of `modeOrder` without an address has none.
pub record Probe : Type 0 where
  pub mode : Bytes
  pub addr : Bytes
  pub dials : Bool
  pub rtt : ℕ
  pub ok : Bool

unfoldable pub line_key : Bytes → Bytes → Bytes
line_key name addr = name ++ 0 ∷ addr

abbrev pub result : Probe → ℕ → Bool → ProbeResult
result p u fresh = record {
  mode = p.mode;
  addr = p.addr;
  upstream = some u;
  rtt = p.rtt;
  ok = p.ok;
  fresh = fresh;
}

-- `s.live[key]`, if it is not nil
unfoldable pub existing : List (Bytes × Option ℕ) → Bytes → Option ℕ
existing live key = elim (lookup bytes_discrete key live) [ none ↦ none | some u ↦ u ]

-- `probeProvider`: the results in the order in which the probes end, and the next free number
unfoldable pub probe_provider :
    List (Bytes × Option ℕ) → ℕ → Bytes → List Probe → List ProbeResult × ℕ
unfolding line_key existing
probe_provider live next name [] = ([], next)
probe_provider live next name (p ∷ probes) =
    let made = probe_provider live (suc next) name probes in
    let rest = probe_provider live next name probes in
    elim (existing live (line_key name p.addr)) [
      | some u ↦ (result p u false ∷ rest.0, rest.1)
      | none ↦ if p.dials then (result p next true ∷ made.0, made.1) else rest
    ]

-- the probes of every provider
unfoldable pub probe_all :
    List (Bytes × Option ℕ) → ℕ → List (Bytes × List Probe) → List (Bytes × List ProbeResult) × ℕ
unfolding probe_provider
probe_all live next [] = ([], next)
probe_all live next ((name, probes) ∷ providers) =
    let (results, next') = probe_provider live next name probes in
    let (rest, next'') = probe_all live next' providers in ((name, results) ∷ rest, next'')

abbrev pub select :
    Bytes → Option ProbeResult → List (Bytes × ProbeResult) → List (Bytes × ProbeResult)
select name none selected = selected
select name (some b) selected = insert bytes_discrete name b selected

-- the loop that picks each provider's line, with what is selected and closed so far
unfoldable pub settle :
    List (Bytes × List ProbeResult)
    → List (Bytes × ProbeResult)
    → List ℕ
    → List (Bytes × ProbeResult) × List ℕ
unfolding settle_provider
settle [] selected closed = (selected, closed)
settle ((name, results) ∷ probes) selected closed =
    settle probes (select name (settle_provider results).0 selected)
      (closed ++ (settle_provider results).1)

-- `selUp`
unfoldable pub selected_up :
    List (Bytes × ProbeResult) → List (Bytes × Option ℕ) → List (Bytes × Option ℕ)
unfolding line_key
selected_up [] up = up
selected_up ((name, b) ∷ selected) up =
    selected_up selected (insert bytes_discrete (line_key name b.addr) b.upstream up)

abbrev pub member : Config → Bytes × ProbeResult → Member (Option ℕ)
member cfg (name, b) = record { weight = pos_part (weight cfg name); upstream = b.upstream }

-- the upstreams that are not kept
unfoldable pub retire : List (Bytes × Option ℕ) → List (Bytes × Option ℕ) → List (Option ℕ)
retire [] up = []
retire ((key, u) ∷ live) up =
    let rest = retire live up in
    elim (lookup bytes_discrete key up) [ some v ↦ rest | none ↦ u ∷ rest ]

abbrev pub policy_of : Named EvictionName → Policy
policy_of (known fifo) = Policy.fifo
policy_of (known lru) = Policy.lru
policy_of (known lfu) = Policy.lfu
policy_of (other []) = unset
policy_of (other (b ∷ bs)) = unknown

-- A pointer that is `nil`, which `normalize` does not leave, would be a panic.
unfoldable pub cache_config : Config → Cache.Config
cache_config cfg = record {
  max_bytes = cfg.cache_size_bytes;
  ttl = value_or (pos 0) cfg.cache_ttl;
  eviction = policy_of cfg.cache_eviction;
  stale_max_age = cfg.cache_stale_max_age;
  stale_answer_ttl = cfg.cache_stale_answer_ttl;
  min_ttl = cfg.ttl_min;
  max_ttl = cfg.ttl_max;
}

abbrev pub is_weighted : Named RaceMode → Bool
is_weighted (known weighted) = true
is_weighted (known fastest) = false
is_weighted (other text) = false

unfoldable pub aggregate : Config → List (Member (Option ℕ)) → Aggregate
unfolding new_racing new_breaker cache_config Cache.new
aggregate cfg members =
    let racing = new_racing members (is_weighted cfg.upstream_mode) cfg.race_window in
    record {
      racing = record racing {
        breaker =
            if ltb_ℤ (pos 0) cfg.breaker_fail_threshold
            then some (
                new_breaker (length members) (pos_part cfg.breaker_fail_threshold)
                  cfg.breaker_cooldown)
            else none;
      };
      cache = if value_or true cfg.cache_enabled then some (Cache.new (cache_config cfg)) else none;
    }

unfoldable pub routes_of : Config → List (Member (Option ℕ)) → Option Aggregate
unfolding aggregate
routes_of cfg [] = none
routes_of cfg (m ∷ ms) = some (aggregate cfg (m ∷ ms))

abbrev pub is_same : Bytes → Bytes → Bool
is_same a b = elim (bytes_discrete a b) [ yes p ↦ true | no p ↦ false ]

abbrev pub is_some : {A : Type 0} → Option A → Bool
is_some none = false
is_some (some a) = true

module _ (slices : SliceSort Bytes) (cfg : Config) where
  -- the signature of a selection
  unfoldable pub signature_of : List (Bytes × ProbeResult) → Bytes
  unfolding select_signature
  signature_of selected =
      select_signature slices (map (λ p. p.0) selected) (map (λ p. (p.0, p.1.addr)) selected)

  -- the part of `probeAndSelect` after the early return; the upstreams that it leaves have their
  -- timers set
  unfoldable pub adopt : Scheduler → List (Bytes × ProbeResult) → Scheduler
  unfolding signature_of selected_up retire weight routes_of
  adopt s selected = record s {
    live = selected_up selected [];
    signature = signature_of selected;
    current = routes_of cfg (map (member cfg) selected);
    retired = s.retired ++ retire s.live (selected_up selected []);
  }

  -- the part of `probeAndSelect` after the probes
  unfoldable pub reselect : Scheduler → List (Bytes × ProbeResult) → Scheduler
  unfolding adopt
  reselect s selected =
      if is_same (signature_of selected) s.signature && is_some s.current
      then s
      else adopt s selected

  -- `probeAndSelect`; what the probes of each provider meet, in the order in which they end
  unfoldable pub probe_and_select : Scheduler → List (Bytes × List Probe) → Scheduler
  unfolding probe_all settle reselect
  probe_and_select s providers =
      let (probes, next) = probe_all s.live s.next providers in
      let (selected, closed) = settle probes [] [] in
      reselect (record s { next = next; closed = s.closed ++ closed }) selected

-- what `closeAllLive` closes
unfoldable pub held : List (Bytes × Option ℕ) → List ℕ
held [] = []
held ((key, none) ∷ live) = held live
held ((key, some u) ∷ live) = u ∷ held live

-- `closeAllLive`
unfoldable pub close_all_live : Scheduler → Scheduler
unfolding held
close_all_live s = record s { live = []; closed = s.closed ++ held s.live }
