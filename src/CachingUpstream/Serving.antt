-- ===== src/CachingUpstream/Serving.antt =====
-- What the cache serves after the upstream has answered.
use dnsproxy_router.Prelude.{
  subst, ℕ, ◌+◌, ◌≡◌, refl, sym, ap, ◌∙◌, true, false, none, some, Bytes, length, arith,
}
use dnsproxy_router.Prelude.Int.{ℤ, pos, ◌+ℤ◌, ◌≤ℤ◌, ◌<ℤ◌, leb_ℤ}
use dnsproxy_router.Dns.{Msg, DnsLibrary}
use dnsproxy_router.Cache.{
  Cache, get, get_at, get_stale, get_stale_at, put, set_at, clamp, lifetime, fresh_answer,
  stale_answer, new_entry,
}
use dnsproxy_router.Cache.Key.{key}
use dnsproxy_router.Cache.Records.{clamp_between, cacheable}
use dnsproxy_router.Cache.RoundTrip.{set_at-Holds, get_at-stored, get_stale_at-stored}
use dnsproxy_router.Race.{Reply}
use dnsproxy_router.CachingUpstream.{fresh, stale, look, fill}

clamp-keeps : (c : Cache) (m : Msg) → ((clamp c m).id ≡ m.id) × ((clamp c m).question ≡ m.question)
unfolding clamp clamp_between
clamp-keeps c m = ground arith

module _ (lib : DnsLibrary) (d : Cache) (later late : ℤ) (req : Msg) (k : Bytes)
    (named : key lib req ≡ some k) where
  get-named : (t : ℤ) → get lib d t req ≡ get_at d t k
  unfolding get
  get-named t = rw (get, named) refl

  get_stale-named :
      leb_ℤ d.cfg.stale_max_age (pos 0) ≡ false → get_stale lib d late req ≡ get_stale_at d late k
  unfolding get_stale
  get_stale-named on = rw (get_stale, named, on) refl

  look-fresh : (m : Msg) → (get_at d later k).1 ≡ some m → (look lib d later late req).1 ≡ fresh m
  unfolding look get
  look-fresh m h = rw (look, named, get-named later, h) refl

  look-stale :
      (m : Msg)
      → get_at d later k ≡ (d, none)
      → leb_ℤ d.cfg.stale_max_age (pos 0) ≡ false
      → get_stale_at d late k ≡ (d, some m)
      → look lib d later late req ≡ (d, stale k m)
  unfolding look get get_stale
  look-stale m h on g =
      let got : get lib d later req ≡ (d, none) = get-named later ∙ h in
      let old : get_stale lib (get lib d later req).0 late req ≡ (d, some m) =
        ap (λ x. get_stale lib x.0 late req) got ∙ get_stale-named on ∙ g in
      rw (look, named, got, old) (ap (λ x. (x.0, stale k m)) old)

module _ (lib : DnsLibrary) (c : Cache) (now : ℤ) (req other resp : Msg) (k : Bytes) (ttl : ℤ)
    (named : key lib req ≡ some k) (same : key lib other ≡ some k)
    (good : cacheable (clamp c resp) ≡ true) (life : lifetime c.cfg (clamp c resp) ≡ some ttl) where
  abbrev size : ℕ
  size = lib.len (clamp c resp) + length k

  module _ (E : Type 0) where
    abbrev answer : Reply Msg E
    answer = record { resp = some resp; err = none }

    fill-set : (fill lib c now req answer).0 ≡ set_at c now k (clamp c resp) size ttl
    unfolding fill put
    fill-set = rw (put, named, good, life) refl

    -- After an answer that can be cached, a request with the same key is answered from the cache,
    -- until the lifetime of the clamped answer is over, without asking the upstream: with that
    -- answer's id and question, and the TTLs rewritten to the time left.
    pub look-fill :
        (later late : ℤ)
        → later ≤ℤ now +ℤ ttl
        → (m : Msg) × ((look lib (fill lib c now req answer).0 later late other).1 ≡ fresh m)
          × (m ≡ fresh_answer c.cfg later (new_entry c now (clamp c resp) size ttl))
          × (m.id ≡ resp.id)
          × (m.question ≡ resp.question)
    unfolding look get
    look-fill later late h = (
      fresh_answer c.cfg later (new_entry c now (clamp c resp) size ttl),
      ap (λ d. (look lib d later late other).1) fill-set
          ∙ look-fresh lib (set_at c now k (clamp c resp) size ttl) later late other k same _
              (get_at-stored c now k (clamp c resp) size ttl later h),
      refl,
      (clamp-keeps c resp).0,
      (clamp-keeps c resp).1,
    )

    -- When the lifetime is over, within the stale window of an optimistic cache, such a request is
    -- still answered from the cache, with the short TTL, and a refresh under its key is started; the
    -- entry stays.
    pub look-fill_stale :
        (later late : ℤ)
        → leb_ℤ c.cfg.stale_max_age (pos 0) ≡ false
        → now +ℤ ttl <ℤ later
        → later ≤ℤ late
        → late ≤ℤ now +ℤ (ttl +ℤ c.cfg.stale_max_age)
        → let d = (fill lib c now req answer).0 in
          look lib d later late other
          ≡ (d, stale k (stale_answer c.cfg (new_entry c now (clamp c resp) size ttl)))
    look-fill_stale later late on over order h =
        subst
          (λ d.
            look lib d later late other
            ≡ (d, stale k (stale_answer c.cfg (new_entry c now (clamp c resp) size ttl))))
          (sym fill-set)
          (look-stale lib (set_at c now k (clamp c resp) size ttl) later late other k same _
            (get_stale_at-stored c now k (clamp c resp) size ttl later over (omega arith)).0
            (ap (λ f. leb_ℤ f.stale_max_age (pos 0))
                (set_at-Holds c now k (clamp c resp) size ttl).1
              ∙ on)
            (get_stale_at-stored c now k (clamp c resp) size ttl late (omega arith) h).1)
