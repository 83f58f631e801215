-- ===== src/Scheduler/Life.antt =====
-- internal/scheduler/scheduler.go, Start, Stop, Retire, FirstDone, CurrentConfig: the life of one
-- scheduler. `Start` runs in a goroutine of its own; a step of it is one function here, and `Moves`
-- says when it can be taken. The goroutines of the probers are not followed.
pub mod Open
use dnsproxy_router.Prelude.{◌≡◌, Bool, true, false, ◌||◌, Option, List, Bytes, if◌then◌else◌}
use dnsproxy_router.Prelude.Int.{ℤ, pos, ltb_ℤ}
use dnsproxy_router.Prelude.Sort.{SliceSort}
use dnsproxy_router.Config.{Config}
use dnsproxy_router.Scheduler.Round.{
  Scheduler, Aggregate, Probe, new, probe_and_select, close_all_live,
}

-- Where `Start` stands: not begun, in the first round, in the loop, behind it and waiting for the
-- probers, or returned.
pub data Phase : Type 0 where
  launched first_round looping waiting ended : Phase

-- `cancelled` says whether the scheduler's own `cancel` was called, `timer` whether the timer of a
-- graceful end is set.
pub record Life : Type 0 where
  pub cfg : Config
  pub phase : Phase
  pub cancelled : Bool
  pub grace : ℤ
  pub timer : Bool
  pub sched : Scheduler

-- `New`, with `Start` about to run
unfoldable pub launch : Config → Life
unfolding new
launch cfg = record {
  cfg = cfg;
  phase = launched;
  cancelled = false;
  grace = pos 0;
  timer = false;
  sched = new;
}

-- `started` is closed
abbrev pub has_started : Phase → Bool
has_started launched = false
has_started first_round = true
has_started looping = true
has_started waiting = true
has_started ended = true

-- `FirstDone`: whether the channel is closed
abbrev pub first_done : Phase → Bool
first_done launched = false
first_done first_round = false
first_done looping = true
first_done waiting = true
first_done ended = true

-- `CurrentConfig`
abbrev pub current_config : Life → Option Aggregate
current_config l = l.sched.current

-- the head of `Start`, up to the first round
unfoldable pub begin : Life → Life
begin l = record l { phase = first_round }

-- the deferred close of the live upstreams: at once, or by a timer
unfoldable pub leave : Life → Life
unfolding close_all_live
leave l =
    if ltb_ℤ (pos 0) l.grace
    then record l { phase = waiting; timer = true }
    else record l { phase = waiting; sched = close_all_live l.sched }

-- the probers have returned, and `done` is closed
unfoldable pub finish : Life → Life
finish l = record l { phase = ended }

-- the timer of a graceful end fires
unfoldable pub fire : Life → Life
unfolding close_all_live
fire l = record l { timer = false; sched = close_all_live l.sched }

-- the two writes of `Retire`, and the one of `Stop`, once `started` is closed
unfoldable pub store_grace : ℤ → Life → Life
store_grace delay l = record l { grace = delay }

unfoldable pub cancel : Life → Life
cancel l = record l { cancelled = true }

module _ (slices : SliceSort Bytes) where
  -- a round of the loop, the first one too
  unfoldable pub round : List (Bytes × List Probe) → Life → Life
  unfolding probe_and_select
  round met l = record l { phase = looping; sched = probe_and_select slices l.cfg l.sched met }

  -- A step of `Start`, or of its timer, where `parent` says whether the process's context is
  -- cancelled. What the probes of a round meet is open. A tick can be taken after a cancel, since
  -- `select` chooses at random among what is ready.
  pub data Moves (parent : Bool) (l : Life) : Life → Type 0 where
    begins : l.phase ≡ launched → Moves parent l (begin l)
    first : (met : List (Bytes × List Probe)) → l.phase ≡ first_round → Moves parent l (round met l)
    ticks : (met : List (Bytes × List Probe)) → l.phase ≡ looping → Moves parent l (round met l)
    leaves : l.phase ≡ looping → (parent || l.cancelled) ≡ true → Moves parent l (leave l)
    finishes : l.phase ≡ waiting → Moves parent l (finish l)
    fires : l.timer ≡ true → Moves parent l (fire l)
