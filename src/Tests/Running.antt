-- ===== src/Tests/Running.antt =====
-- The process with a configuration of one provider: the first scheduler begins, a signal comes, and
-- the same configuration is loaded again.
use dnsproxy_router.Command.{
  Process, Reach, boot, with_life, hang_up, start, later, moves, signal, hup,
}
use dnsproxy_router.Command.Exit.{Exits, Settles, shutdown-exits, reload-Settles}
use dnsproxy_router.Command.Options.{ProxyLibrary}
use dnsproxy_router.Command.Promises.{Reach-serves, Reach-keeps_all}
use dnsproxy_router.Command.Serving.{Handles, Runs}
use dnsproxy_router.Config.{Config}
use dnsproxy_router.Config.Default.{default_config}
use dnsproxy_router.Prelude.{[], ◌≡◌, ◌⊎◌, refl, true, false, some, Bytes, arith}
use dnsproxy_router.Prelude.Sort.{by_insertion}
use dnsproxy_router.Scheduler.Life.{begin, launch, begins}
use dnsproxy_router.Scheduler.Round.Open.{IsSound}
use dnsproxy_router.Tests.Configuring.{small_net, providers}

abbrev pub small_lib : ProxyLibrary Bytes
small_lib = record {
  parse_upstreams = λ texts timeout. some texts;
  parse_addr = λ text. some (record { is6 = false; bytes = text });
}

abbrev pub small_config : Config
small_config = record default_config { dns = providers }

-- the first scheduler is in its first round
abbrev begun : Process
begun = with_life (boot small_config) 0 (begin ((boot small_config).lives 0))

abbrev signalled : Process
signalled = record begun { done = true }

abbrev reloaded : Process
reloaded = hang_up small_net small_lib signalled (some []) (λ bytes. some small_config)

begun-Reach : Reach small_net small_lib by_insertion small_config begun
unfolding boot launch
begun-Reach = later start (moves 0 _ (omega arith) (begins refl))

signalled-Reach : Reach small_net small_lib by_insertion small_config signalled
signalled-Reach = later begun-Reach signal

reloaded-Reach : Reach small_net small_lib by_insertion small_config reloaded
unfolding boot
reloaded-Reach = later signalled-Reach (hup (some []) (λ bytes. some small_config) refl)

Reach-serves_example :
    Runs (begun.lives begun.slot)
    × ((begun.lives begun.slot).timer ≡ false)
    × IsSound (begun.lives begun.slot).sched
unfolding boot
Reach-serves_example = Reach-serves small_net small_lib by_insertion begun-Reach refl

Reach-keeps_all_example :
    (0 ≡ begun.slot) ⊎ ((begun.lives 0).cancelled ≡ true) ⊎ Handles begun.reload 0
unfolding boot
Reach-keeps_all_example =
    Reach-keeps_all small_net small_lib by_insertion begun-Reach 0 (omega arith)

shutdown-exits_example : Exits small_net small_lib by_insertion signalled
shutdown-exits_example =
    shutdown-exits small_net small_lib by_insertion
      (λ a h. (record { is6 = false; bytes = a }, refl)) signalled-Reach refl

reload-Settles_example : Settles small_net small_lib by_insertion reloaded
reload-Settles_example = reload-Settles small_net small_lib by_insertion reloaded-Reach
