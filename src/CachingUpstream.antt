-- ===== src/CachingUpstream.antt =====
-- internal/scheduler/racing.go, cachingUpstream: the cache in front of the racing upstream. A call of
-- `Exchange` looks into the cache, and otherwise goes through the coalescer (Coalescer), whose `fn` is
-- `fill`; each of the cache's methods holds its lock, so a call is a sequence of these steps.
pub mod Serving
use dnsproxy_router.Prelude.{ℕ, Option, none, some, Bytes}
use dnsproxy_router.Prelude.Int.{ℤ}
use dnsproxy_router.Dns.{Msg, DnsLibrary}
use dnsproxy_router.Cache.{Cache, get, get_stale, put, clamp}
use dnsproxy_router.Cache.Key.{key}
use dnsproxy_router.Race.{Reply}

-- What the first part of `Exchange` decides: to pass the request on without a key, to answer, to
-- answer and refresh in the background, or to ask the upstream through the coalescer.
pub data Look : Type 0 where
  bypass : Look
  fresh : Msg → Look
  stale : (key : Bytes) → Msg → Look
  miss : (key : Bytes) → Look

-- A call of `Exchange`: the cache, what it returns, and the key of a refresh that it starts.
pub record Exchanged (E : Type 0) : Type 0 where
  pub cache : Cache
  pub reply : Reply Msg E
  pub refresh : Option Bytes

module _ (lib : DnsLibrary) where
  -- up to the coalescer; `now` and `later` are the clock's readings in `Get` and in `GetStale`
  unfoldable pub look : Cache → ℤ → ℤ → Msg → Cache × Look
  unfolding get get_stale key
  look c now later req = elim (key lib req) [
    | none ↦ (c, bypass)
    | some k ↦
        let (c', found) = get lib c now req in
        let (c'', old) = get_stale lib c' later req in
        elim found [
          | some resp ↦ (c', fresh resp)
          | none ↦ elim old [ none ↦ (c'', miss k) | some resp ↦ (c'', stale k resp) ]
        ]
  ]

  module _ {E : Type 0} where
    -- the function that `Exchange` and `refreshAsync` give to the coalescer, after the upstream's
    -- answer
    unfoldable pub fill : Cache → ℤ → Msg → Reply Msg E → Cache × Reply Msg E
    unfolding put clamp
    fill c now req reply = elim reply.err [
      | some e ↦ (c, record { resp = none; err = some e })
      | none ↦ elim reply.resp [
        | none ↦ (c, record { resp = none; err = none })
        | some m ↦ (put lib c now req (clamp c m), record { resp = some (clamp c m); err = none })
      ]
    ]

    -- `Exchange` of a call that shares no answer; `up` is what the upstream answers, and `done` the
    -- clock's reading then. A refresh that it starts is another call of `fill`.
    unfoldable pub exchange_cached : Cache → ℤ → ℤ → Msg → ℤ → Reply Msg E → Exchanged E
    unfolding look fill
    exchange_cached c now later req done up =
        let (c', seen) = look c now later req in
        let (c'', reply) = fill c' done req up in
        elim seen [
          | bypass ↦ record { cache = c'; reply = up; refresh = none }
          | fresh m ↦ record {
            cache = c';
            reply = record { resp = some m; err = none };
            refresh = none;
          }
          | stale k m ↦ record {
            cache = c';
            reply = record { resp = some m; err = none };
            refresh = some k;
          }
          | miss k ↦ record { cache = c''; reply = reply; refresh = none }
        ]
