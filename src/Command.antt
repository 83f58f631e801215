-- ===== src/Command.antt =====
-- cmd/dnsproxy/main.go, main: the process from its start to its exit, as steps of the goroutines
-- that end and replace schedulers: `main` itself, the loop that reloads the configuration, and each
-- scheduler's `Start`. The proxy's own goroutines are outside; when it has drained is open.
pub mod Options
pub mod Listeners
pub mod Serving
pub mod Shutdown
pub mod Reloading
pub mod Promises
pub mod Exit
use dnsproxy_router.Coalescer.{update}
use dnsproxy_router.Command.Options.{ProxyLibrary, build_base_opts, built, unparsed, panics}
use dnsproxy_router.Config.{Config, NetLibrary}
use dnsproxy_router.Config.Duration.{mul_int64}
use dnsproxy_router.Config.Normal.{load_config, accepted, refused}
use dnsproxy_router.Prelude.{
  ℕ, suc, ◌≡◌, ◌<◌, Bool, true, false, Option, none, some, List, [], ◌∷◌, Bytes,
}
use dnsproxy_router.Prelude.Int.{ℤ, pos}
use dnsproxy_router.Prelude.Sort.{SliceSort}
use dnsproxy_router.Scheduler.Life.{
  Life, launch, has_started, first_done, ended, current_config, store_grace, cancel, Moves,
}

-- What the reload loop does after a call of `Retire`: the next round, or its return.
pub data After : Type 0 where
  again ends : After

-- Where the reload loop stands: at its `select`; waiting for the first round of a new scheduler;
-- before the swap; in `Retire`, before its first write and before its second; or returned.
pub data Reload : Type 0 where
  listening returned : Reload
  awaiting swapping : (id : ℕ) → Reload
  retiring : (id : ℕ) (delay : ℤ) (after : After) → Reload
  cancelling : (id : ℕ) (after : After) → Reload

-- Where `main` stands: waiting for a signal; in `Shutdown`; behind `appCancel`; in `Stop`, before
-- its call of `cancel` and behind it; returned; or killed by a panic.
pub data Main : Type 0 where
  serving draining stopped crashed : Main
  stopping joining exited : (id : ℕ) → Main

-- whether the context of the schedulers is cancelled, or gone with the process
abbrev pub app_cancelled : Main → Bool
app_cancelled serving = false
app_cancelled draining = false
app_cancelled stopped = true
app_cancelled crashed = true
app_cancelled (stopping id) = true
app_cancelled (joining id) = true
app_cancelled (exited id) = true

-- The schedulers are numbered from 0; `next` have been made. `slot` is the one in the handler's
-- atomic pointer, and `done` says whether the context of the signals is done. `found` is the history
-- of the schedulers that the reload loop has seen with routes.
pub record Process : Type 0 where
  pub lives : ℕ → Life
  pub next : ℕ
  pub slot : ℕ
  pub done : Bool
  pub reload : Reload
  pub main : Main
  pub found : List ℕ

-- after `go sched.Start(appCtx)`
unfoldable pub boot : Config → Process
unfolding launch
boot cfg = record {
  lives = λ i. launch cfg;
  next = 1;
  slot = 0;
  done = false;
  reload = listening;
  main = serving;
  found = [];
}

abbrev pub resume : After → Reload
resume again = listening
resume ends = returned

abbrev pub with_life : Process → ℕ → Life → Process
with_life p i l = record p { lives = update p.lives i l }

-- the first round of a new scheduler is done: it is swapped in if it has routes
unfoldable pub decide : Process → ℕ → Process
decide p id = elim (current_config (p.lives id)) [
  | none ↦ record p { reload = retiring id (pos 0) again }
  | some routes ↦ record p { reload = swapping id; found = id ∷ p.found }
]

-- the swap, and the begin of `Retire` of the old scheduler
unfoldable pub swap_in : Process → ℕ → Process
unfolding mul_int64
swap_in p id = record p {
  slot = id;
  reload = retiring p.slot (mul_int64 (p.lives id).cfg.probe_timeout 2) again;
}

-- a scheduler is made and started
abbrev pub relaunch : Process → Config → Process
relaunch p cfg = record p {
  lives = update p.lives p.next (launch cfg);
  next = suc p.next;
  reload = awaiting p.next;
}

module _ {U : Type 0} (net : NetLibrary) (lib : ProxyLibrary U) where
  -- SIGHUP: the file is loaded, and a scheduler for it made and started
  unfoldable pub hang_up : Process → Option Bytes → (Bytes → Option Config) → Process
  hang_up p file decode = elim (load_config net file decode) [
    | refused e ↦ p
    | accepted cfg ↦ elim (build_base_opts lib cfg) [
      | unparsed ↦ p
      | panics ↦ record p { main = crashed }
      | built opts ↦ relaunch p cfg
    ]
  ]

  module _ (slices : SliceSort Bytes) where
    -- One step of the process.
    pub data Step (p : Process) : Process → Type 0 where
      -- a scheduler's own step
      moves :
          (i : ℕ) (l : Life)
          → i < p.next
          → Moves slices (app_cancelled p.main) (p.lives i) l
          → Step p (with_life p i l)
      -- SIGINT, SIGTERM, or an error of the proxy
      signal : Step p (record p { done = true })
      -- the reload loop
      hup :
          (file : Option Bytes) (decode : Bytes → Option Config)
          → p.reload ≡ listening
          → Step p (hang_up p file decode)
      quits : p.reload ≡ listening → p.done ≡ true → Step p (record p { reload = returned })
      decides :
          (id : ℕ)
          → p.reload ≡ awaiting id
          → first_done (p.lives id).phase ≡ true
          → Step p (decide p id)
      gives_up :
          (id : ℕ)
          → p.reload ≡ awaiting id
          → p.done ≡ true
          → Step p (record p { reload = retiring id (pos 0) ends })
      swaps : (id : ℕ) → p.reload ≡ swapping id → Step p (swap_in p id)
      stores :
          (id : ℕ) (delay : ℤ) (after : After)
          → p.reload ≡ retiring id delay after
          → has_started (p.lives id).phase ≡ true
          → Step p (record (with_life p id (store_grace delay (p.lives id))) {
            reload = cancelling id after;
          })
      cancels :
          (id : ℕ) (after : After)
          → p.reload ≡ cancelling id after
          → Step p (record (with_life p id (cancel (p.lives id))) { reload = resume after })
      -- `main`
      drains : p.main ≡ serving → p.done ≡ true → Step p (record p { main = draining })
      drained : p.main ≡ draining → Step p (record p { main = stopped })
      reads : p.main ≡ stopped → Step p (record p { main = stopping p.slot })
      stops :
          (id : ℕ)
          → p.main ≡ stopping id
          → has_started (p.lives id).phase ≡ true
          → Step p (record (with_life p id (cancel (p.lives id))) { main = joining id })
      exits :
          (id : ℕ)
          → p.main ≡ joining id
          → (p.lives id).phase ≡ ended
          → Step p (record p { main = exited id })

    pub data Reach (cfg : Config) : Process → Type 0 where
      start : Reach cfg (boot cfg)
      later : {p q : Process} → Reach cfg p → Step p q → Reach cfg q
