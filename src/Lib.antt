-- ===== src/Lib.antt =====
-- dnsproxy-router: a DNS proxy that answers each request by several upstream providers at once.
--
-- A request comes in through the proxy library to the handler (internal/handler/handler.go), which
-- settles its EDNS options with the ECS policy (internal/ecs/ecs.go) and hands it to the routes of
-- the scheduler. The scheduler (internal/scheduler/scheduler.go) probes the lines of each provider
-- and keeps the fastest; the kept ones answer a query as one racing upstream
-- (internal/scheduler/racing.go) under a circuit breaker (internal/scheduler/breaker.go). Responses
-- are kept in a cache that is bounded in bytes (internal/cache/cache.go). The names of the upstreams
-- themselves are resolved by internal/bootstrap/hosts.go and internal/bootstrap/cache.go, and the
-- address family is chosen by internal/afp/prober.go and internal/afp/selector.go.
--
-- The process (cmd/dnsproxy/main.go) builds all of this from the configuration, replaces the
-- scheduler when it is told to load the configuration again, and stops it at its exit.
--
-- Files and code:
-- - Prelude: Boolean tests, lists, association lists, signed integers, and the contract of
--   `sort.Slice` (Prelude/Sort), which every use of a sort is stated for.
-- - Dns: the messages of github.com/miekg/dns and an interface of its functions with their
--   documented behaviour.
-- - Breaker: breaker.go. `pick`, `report`, `open_locked` (openLocked) and `new_breaker` take the
--   clock's reading; `none` is a panic of an index out of range. Children: Outcomes (one call),
--   History (any history), Candidates (what `pick` lets through).
-- - Race: racing.go, racingUpstream. `exchange`, `exchange_fastest` and `exchange_weighted` take the
--   goroutines' events in the order in which they happen, the timer's among them. Children: Fastest,
--   Winner (the weighted mode) and Exchange (a whole query).
-- - Coalescer: coalescer.go. The calls of Do are threads that take steps in any order: the first
--   critical section (`enter`), fn's answer with `wg.Done` (`complete`), the second critical section
--   (`forget`), and the return of a call that waited (`read_call`). Children: Steps (the relation),
--   Flight (the invariant), Moves and Ends (each step keeps it) and Sharing.
-- - CachingUpstream: racing.go, cachingUpstream. `look` is Exchange up to the coalescer, `fill` the
--   function that it and refreshAsync give to the coalescer. Child: Serving.
-- - Cache: cache.go. `get`, `get_stale`, `put` (Set), `clamp` and `clear`, and below them `get_at`,
--   `get_stale_at` and `set_at` from the key on, with `touch`, `remove_entry`, `evict_for`,
--   `insert_entry` and `replace_entry` as in the code. Children that model code: Records (what is
--   read from records and written into them), Key (Key, keyOf), Heap (lfuHeap and container/heap).
--   Children with proofs: Sizes, Count and Calls (the byte count), Order, Linear and Room (FIFO and
--   LRU), Runs (any calls), Bound (the byte limit), RoundTrip, Shown (the TTLs of
--   answers), Ttl (Clamp), and for LFU Frequent with Removal
--   (removeEntry), Victim (evictOne), Steps (the parts of Set and Get) and Kept (any calls). Under Heap
--   stand the proofs about container/heap: Ranks (the order), Links (slots and indices), Swaps, Sift
--   (up), Sink (down), Repair (both, and Pop of the last slot), Changes (heap.Fix, Remove and Pop) and
--   Added (heap.Push).
-- - Ecs: ecs.go, with Ecs/Options. Handler: handler.go, with Handler/Request (the routed requests) and
--   Handler/Fallback (those without routes).
-- - Scheduler: the probes of a line (probeMode, median), the choice (pickBest), the closing of the
--   others (closeFresh) and selectSignature; children Best, Closing, Probes and Signature.
--   Scheduler/Round is a round as a whole (probeProvider, probeAndSelect, closeAllLive) on the live
--   upstreams, the selection with its racing upstream, breaker and cache, and the upstreams that are
--   closed or have their timers set; its children are Reuse, Retired, Origin, Settled, Open, Rounds
--   (any number of rounds) and Clamped (the cache of a selection). Scheduler/Life is the life of a
--   scheduler: a step of `Start` is a function (`begin`, `round`, `leave`, `finish`, and `fire` of the
--   timer), `Moves` says when it can be taken, and `store_grace` and `cancel` are what Retire and Stop
--   write; child Open. Scheduler/Providers is New, the options and the prober of each provider, with
--   Preferring.
-- - Command: main.go. The process is a step relation over the schedulers, which are numbered, the
--   scheduler in the handler's pointer (`slot`), the goroutine that reloads (`hang_up`, `decide`,
--   `swap_in`, and the two writes of Retire) and `main` from the signal to its return. Children:
--   Options (buildBaseOpts) with Chained and Repeating, Listeners (the start-up, the proxy's
--   configuration and the health check) with Enabled and Health, Serving (what holds in every reachable
--   state) with Kept, Reloading (what a reload makes of a file), Shutdown with Returns (the ways of one
--   scheduler), Promises and Exit.
-- - Afp: prober.go and selector.go; children Choice and Prober (a prober with its rounds and loop).
--   Bootstrap: hosts.go and cache.go of internal/bootstrap; children Hosts, Fresh and Chain (the
--   resolvers wrapped around each other; `look_up` asks such a chain).
-- - Config: internal/config/config.go. Checks (the functions that look for an error), Normal
--   (validateListeners, normalize and LoadConfig as steps that write defaults and return the first
--   error), Default (DefaultConfig) and Valid (what a configuration has to satisfy). Children with
--   proofs: Meaning, Accepted, Outcome and Fixed. Config/Duration is ParseDuration on 64-bit numbers
--   that wrap around, with Exact; Config/Targets is targetFromAddr, UpstreamTargets and
--   UpstreamTargetsFor, with RoundTrip. The scheduler reads its periods, weights and limits from it.
-- - Tests: concrete inputs for the theorems.
--
-- Fuel: the loop of `evictFor` runs as many rounds as there are entries, and each round removes one
-- under the three policies; with an unknown policy, which the configuration refuses, the code would
-- loop without end. `up` and `down` of the heap run as many rounds as there are slots, and the index
-- falls or grows in each; a decimal number below 2 ^ 16 has five digits.
--
-- Abstractions: times and byte counts are integers that do not wrap around, except in ParseDuration;
-- a duration's seconds are the exact quotient (Go takes a float64), and average times are compared as
-- exact fractions; texts are lowered as ASCII. A text of the configuration that the code compares with
-- constants is one of them or another text (Config.Named). An error of the configuration is its kind,
-- without its text. A timer that closes a retired upstream is in a list from when it is set. The
-- order list's nodes and the heap's slots name entries by their keys. Go's maps are association
-- lists, in the order that an iteration takes where there is one. Logging is left out, except for the
-- handler's warning. A step of the process is what a goroutine does between two points at which
-- others can see its effect; the loop of a selection's rounds is one step each. The clones of the base
-- options share their resolver in the code and are copies of it here. The schedulers that are not
-- made yet hold a place of which no step is taken.
--
-- Not modelled: the goroutines of the probers while a scheduler runs, the warming up of a selection,
-- the flags and the logger, the proxy's own goroutines (when it has drained is open), network
-- connections, tickers, and the resolution inside the proxy library.
pub mod Prelude
pub mod Dns
pub mod Cache
pub mod Breaker
pub mod Race
pub mod Ecs
pub mod Handler
pub mod Coalescer
pub mod Command
pub mod CachingUpstream
pub mod Scheduler
pub mod Afp
pub mod Bootstrap
pub mod Config
pub mod Tests
