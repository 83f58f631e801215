-- ===== src/Command/Promises.antt =====
-- What the process promises: which scheduler is served from, and that none is lost.
use dnsproxy_router.Command.Serving.Kept.{Reach-Inv}
use dnsproxy_router.Command.Serving.{Handles, Runs}
use dnsproxy_router.Command.{app_cancelled, Process, Reach}
use dnsproxy_router.Command.Options.{ProxyLibrary}
use dnsproxy_router.Config.{Config, NetLibrary}
use dnsproxy_router.Prelude.{ℕ, ◌≡◌, ◌<◌, ◌⊎◌, true, false, Bytes, Any}
use dnsproxy_router.Prelude.Sort.{SliceSort}
use dnsproxy_router.Scheduler.Round.Open.{IsSound}

module _ {U : Type 0} (net : NetLibrary) (lib : ProxyLibrary U) (slices : SliceSort Bytes) where
  -- Until `main` has drained the proxy, whatever reloads come in between: the scheduler that requests
  -- are routed by was not told to stop, is not behind its loop and has no timer set, and none of its
  -- live upstreams was closed.
  pub Reach-serves :
      {cfg : Config} {p : Process}
      → Reach net lib slices cfg p
      → app_cancelled p.main ≡ false
      → Runs (p.lives p.slot) × ((p.lives p.slot).timer ≡ false) × IsSound (p.lives p.slot).sched
  Reach-serves {p} r up =
      let v = Reach-Inv net lib slices r in
      let runs = v.running up in
      let orderly = v.orderly p.slot in (runs, orderly.still runs.1, orderly.sound runs.1)

  -- Every scheduler that was started is the one that requests are routed by, or was told to stop, or
  -- is the one that the reload loop has at hand.
  pub Reach-keeps_all :
      {cfg : Config} {p : Process}
      → Reach net lib slices cfg p
      → (i : ℕ) → i < p.next
      → (i ≡ p.slot) ⊎ ((p.lives i).cancelled ≡ true) ⊎ Handles p.reload i
  Reach-keeps_all r i made = let v = Reach-Inv net lib slices r in v.kept i made

  -- Requests are routed by the first scheduler or by one that the reload loop has seen with routes.
  pub Reach-installed :
      {cfg : Config} {p : Process}
      → Reach net lib slices cfg p
      → (p.slot ≡ 0) ⊎ Any (λ f. f ≡ p.slot) p.found
  Reach-installed r = let v = Reach-Inv net lib slices r in v.installed
