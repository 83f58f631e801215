-- ===== src/Bootstrap/Fresh.antt =====
-- The fixed lifetime: what a hit returns was the wrapped resolver's answer not long ago.
use mathlib.Core.Option.{some_inj}
use dnsproxy_router.Prelude.{
  Any-map, if◌then◌else◌, ◌≡◌, refl, sym, ap, subst, ◌∙◌, inl, inr, ◌⊎◌, Option, none, some, List,
  [], ◌∷◌, arith, Any, lookup, Bytes, bytes_discrete, lookup-insert_self, lookup-insert_ne,
  Option-cases,
}
use dnsproxy_router.Prelude.Int.{ℤ, ◌+ℤ◌, ◌<ℤ◌, ltb_ℤ}
use dnsproxy_router.Afp.{Addr, Network, ip, ip4, ip6, Lookup}
use dnsproxy_router.Bootstrap.{
  BootstrapCache, BootstrapEntry, cache_key, cache_hit, cache_store, new_cache,
}

-- A lookup that reached the wrapped resolver: when it began, and the answer.
pub record Asked (E : Type 0) : Type 0 where
  pub now : ℤ
  pub network : Network
  pub host : Bytes
  pub answer : Lookup E

pub cache_key-injective :
    (n m : Network) (h g : Bytes) → cache_key n h ≡ cache_key m g → (n ≡ m) × (h ≡ g)
unfolding cache_key
cache_key-injective ip ip h g e = (refl, ground arith)
cache_key-injective ip ip4 h g e = absurd (ground arith)
cache_key-injective ip ip6 h g e = absurd (ground arith)
cache_key-injective ip4 ip h g e = absurd (ground arith)
cache_key-injective ip4 ip4 h g e = (refl, ground arith)
cache_key-injective ip4 ip6 h g e = absurd (ground arith)
cache_key-injective ip6 ip h g e = absurd (ground arith)
cache_key-injective ip6 ip4 h g e = absurd (ground arith)
cache_key-injective ip6 ip6 h g e = (refl, ground arith)

hit-found :
    (c : BootstrapCache) (now : ℤ) (network : Network) (host : Bytes) (addrs : List Addr)
    → cache_hit c now network host ≡ some addrs
    → (e : BootstrapEntry) × (lookup bytes_discrete (cache_key network host) c.cache ≡ some e)
      × (e.addrs ≡ addrs)
      × (now <ℤ e.expire)
unfolding cache_hit
hit-found c now network host addrs hit =
    by_entry (lookup bytes_discrete (cache_key network host) c.cache) refl hit
  where
    by_entry :
        (o : Option BootstrapEntry)
        → lookup bytes_discrete (cache_key network host) c.cache ≡ o
        → (elim o [ none ↦ none | some e ↦ if ltb_ℤ now e.expire then some e.addrs else none ])
          ≡ some addrs
        → (e : BootstrapEntry) × (lookup bytes_discrete (cache_key network host) c.cache ≡ some e)
          × (e.addrs ≡ addrs)
          × (now <ℤ e.expire)
    by_entry none at h = absurd (ground arith)
    by_entry (some e) at h = (e, at, ground arith, ground arith)

module _ {E : Type 0} where
  -- The cache after such lookups stored their answers, the latest first. They may overlap: a later
  -- one can have begun earlier.
  unfoldable pub filled : BootstrapCache → List (Asked E) → BootstrapCache
  filled c [] = c
  filled c (q ∷ log) = cache_store (filled c log) q.now q.network q.host q.answer

  filled-ttl : (c : BootstrapCache) (log : List (Asked E)) → (filled c log).ttl ≡ c.ttl
  unfolding filled cache_store
  filled-ttl c [] = refl
  filled-ttl c (q ∷ log) = elim (Option-cases q.answer.err) [
    | inl e ↦ rw e (filled-ttl c log)
    | inr (x, e) ↦ rw e (filled-ttl c log)
  ]

  -- What the log must hold to explain an entry.
  abbrev pub Explains : Bytes → List Addr → ℤ → ℤ → Asked E → Type 0
  Explains k addrs expire ttl q =
      (cache_key q.network q.host ≡ k)
      × (q.answer.err ≡ none)
      × (q.answer.addrs ≡ addrs)
      × (q.now +ℤ ttl ≡ expire)

  store-cases :
      (c : BootstrapCache) (now : ℤ) (network : Network) (host : Bytes) (inner : Lookup E)
      (k : Bytes)
      → (lookup bytes_discrete k (cache_store c now network host inner).cache
          ≡ lookup bytes_discrete k c.cache)
        ⊎ ((cache_key network host ≡ k)
            × (inner.err ≡ none)
            × (lookup bytes_discrete k (cache_store c now network host inner).cache
                ≡ some (record { addrs = inner.addrs; expire = now +ℤ c.ttl })))
  unfolding cache_store
  store-cases c now network host inner k = elim (Option-cases inner.err) [
    | inr (x, bad) ↦ inl (rw (cache_store, bad) refl)
    | inl good ↦
        let e : BootstrapEntry = record { addrs = inner.addrs; expire = now +ℤ c.ttl } in
        elim (bytes_discrete k (cache_key network host)) [
          | yes p ↦ inr (
            sym p,
            good,
            rw (cache_store, good, p)
                (lookup-insert_self bytes_discrete (cache_key network host) e c.cache),
          )
          | no p ↦ inl (
              rw (cache_store, good)
                (lookup-insert_ne bytes_discrete (cache_key network host) k e c.cache p))
        ]
  ]

  filled-explained :
      (c : BootstrapCache) (log : List (Asked E)) (k : Bytes) (e : BootstrapEntry)
      → c.cache ≡ []
      → lookup bytes_discrete k (filled c log).cache ≡ some e
      → Any (Explains k e.addrs e.expire c.ttl) log
  unfolding filled lookup
  filled-explained c [] k e empty at = ground arith
  filled-explained c (q ∷ log) k e empty at =
      elim (store-cases (filled c log) q.now q.network q.host q.answer k) [
        | inl same ↦ inr (filled-explained c log k e empty (sym same ∙ at))
        | inr (key, good, new) ↦
            let eq : e ≡ record { addrs = q.answer.addrs; expire = q.now +ℤ (filled c log).ttl } =
              some_inj.0 (sym at ∙ new) in
            inl (
              key,
              good,
              sym (ap (λ d. d.addrs) eq),
              ap (λ t. q.now +ℤ t) (sym (filled-ttl c log)) ∙ sym (ap (λ d. d.expire) eq),
            )
      ]

  abbrev pub AnsweredBy : ℤ → ℤ → Network → Bytes → List Addr → Asked E → Type 0
  AnsweredBy ttl now network host addrs q =
      (q.network ≡ network)
      × (q.host ≡ host)
      × (q.answer.err ≡ none)
      × (q.answer.addrs ≡ addrs)
      × (now <ℤ q.now +ℤ ttl)

  -- A hit returns what the wrapped resolver answered, without an error, to a lookup for the same
  -- network and host that began less than the fixed lifetime before; whatever lookups filled the
  -- cache since it was new, overlapping ones included.
  pub cache_hit-fresh :
      (ttl : ℤ) (log : List (Asked E)) (now : ℤ) (network : Network) (host : Bytes)
      (addrs : List Addr)
      → cache_hit (filled (new_cache ttl) log) now network host ≡ some addrs
      → Any (AnsweredBy (new_cache ttl).ttl now network host addrs) log
  unfolding cache_hit new_cache
  cache_hit-fresh ttl log now network host addrs hit =
      let (e, at, same, young) =
        hit-found (filled (new_cache ttl) log) now network host addrs hit in
      Any-map
        (λ q found.
          let (names, good, answer, expire) = found in
          let (n, h) = cache_key-injective q.network network q.host host names in
          (n, h, good, answer ∙ same, subst (λ t. now <ℤ t) (sym expire) young))
        log (filled-explained (new_cache ttl) log (cache_key network host) e refl at)
