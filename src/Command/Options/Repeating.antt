-- ===== src/Command/Options/Repeating.antt =====
-- How the resolvers of the options answer a host that is looked up again.
use dnsproxy_router.Bootstrap.Fresh.{cache_key-injective}
use dnsproxy_router.Command.Options.{
  ProxyLibrary, Options, parse_hosts, cached_resolver, hosted_resolver, build_base_opts, built,
}
use dnsproxy_router.Afp.{Addr, Family, Network, Lookup}
use dnsproxy_router.Bootstrap.{
  BootstrapCache, Hosts, new_hosts, new_cache, cache_hit, cache_store, cache_key, lookup_hosts,
}
use dnsproxy_router.Bootstrap.Chain.{Resolver, parallel, cached, hosted, is_hosted, look_up}
use mathlib.Core.Option.{some_inj}
use dnsproxy_router.Config.{Config}
use dnsproxy_router.Prelude.{
  ◌≢◌, none, if◌then◌else◌, lookup-insert_ne, ℕ, ◌≡◌, ◌⊎◌, inl, inr, refl, sym, ap, subst, ◌∙◌,
  true, false, none, some, List, [], ◌∷◌, Bytes, bytes_discrete, lookup, All, arith, Bool-cases,
  Option-cases, lookup-insert_self,
}
use dnsproxy_router.Prelude.Int.{ℤ, pos, ◌+ℤ◌, ◌<ℤ◌}

-- A lookup: what the upstreams and the probers then say, the time, the network and the host.
pub record Ask (U E : Type 0) : Type 0 where
  pub ask : List U → Network → Bytes → Lookup E
  pub prefers : ℕ → Family
  pub time : ℤ
  pub network : Network
  pub host : Bytes

module _ {U E : Type 0} where
  abbrev pub answer_of : Resolver U → Ask U E → Lookup E
  answer_of r a = (look_up a.ask a.prefers a.time r a.network a.host).1

  abbrev pub left_by : Resolver U → Ask U E → Resolver U
  left_by r a = (look_up a.ask a.prefers a.time r a.network a.host).0

  -- The resolver after lookups, the first one first.
  abbrev pub after_asks : Resolver U → List (Ask U E) → Resolver U
  after_asks r [] = r
  after_asks r (a ∷ asks) = after_asks (left_by r a) asks

module _ {U : Type 0} (network : Network) (host : Bytes) (ttl : ℤ) where
  -- Nothing is stored for the network and the host.
  data Blank : Resolver U → Type 0 where
    blank_cache :
        (c : BootstrapCache) (us : List U)
        → c.ttl ≡ ttl
        → lookup bytes_discrete (cache_key network host) c.cache ≡ none
        → Blank (cached c (parallel us))
    blank_hosts : (hosts : Hosts) {r : Resolver U} → Blank r → Blank (hosted hosts r)

module _ {E : Type 0} (network : Network) (host : Bytes) where
  hosted_same :
      (hosts : Hosts) (a b : Lookup E)
      → is_hosted hosts network host ≡ true
      → lookup_hosts hosts network host a ≡ lookup_hosts hosts network host b
  unfolding is_hosted lookup_hosts
  hosted_same hosts a b h = ground arith

  not_hosted :
      (hosts : Hosts) (a : Lookup E)
      → is_hosted hosts network host ≡ false
      → lookup_hosts hosts network host a ≡ a
  unfolding is_hosted lookup_hosts
  not_hosted hosts a h = ground arith

module _ (network : Network) (host : Bytes) (ttl : ℤ) where
  miss_of_blank :
      (c : BootstrapCache) (now : ℤ)
      → lookup bytes_discrete (cache_key network host) c.cache ≡ none
      → cache_hit c now network host ≡ none
  unfolding cache_hit
  miss_of_blank c now at = rw (at, cache_hit) refl

  hit_of_stored :
      (c : BootstrapCache) (addrs : List Addr) (now later : ℤ)
      → lookup bytes_discrete (cache_key network host) c.cache
        ≡ some (record { addrs = addrs; expire = now +ℤ ttl })
      → later <ℤ now +ℤ ttl
      → cache_hit c later network host ≡ some addrs
  unfolding cache_hit
  hit_of_stored c addrs now later at young = rw (at, cache_hit) (ground arith)

module _ {E : Type 0} (network : Network) (host : Bytes) (ttl now : ℤ) where
  stored :
      (c : BootstrapCache) (inner : Lookup E)
      → inner.err ≡ none
      → c.ttl ≡ ttl
      → lookup bytes_discrete (cache_key network host) (cache_store c now network host inner).cache
        ≡ some (record { addrs = inner.addrs; expire = now +ℤ ttl })
  unfolding cache_store
  stored c inner good same =
      rw (good, cache_store)
        (lookup-insert_self bytes_discrete (cache_key network host)
            (record { addrs = inner.addrs; expire = now +ℤ c.ttl }) c.cache
          ∙ ap (λ x. some (record { addrs = inner.addrs; expire = now +ℤ x })) same)

-- The lookups of one network and host, among others, with the cache's lifetime `ttl`.
module _ {U E : Type 0} (network : Network) (host : Bytes) (ttl : ℤ) where
  -- A lookup of another network or host.
  abbrev pub IsOther : Ask U E → Type 0
  IsOther a = (a.network ≢ network) ⊎ (a.host ≢ host)

  other_key : (a : Ask U E) → IsOther a → cache_key a.network a.host ≢ cache_key network host
  other_key a (inl h) same = h (cache_key-injective a.network network a.host host same).0
  other_key a (inr h) same = h (cache_key-injective a.network network a.host host same).1

  -- The answer until the lifetime after `now` is over.
  data Ready (now : ℤ) (l : Lookup E) : Resolver U → Type 0 where
    from_cache :
        (c : BootstrapCache) (us : List U) (addrs : List Addr)
        → l ≡ record { addrs = addrs; err = none }
        → lookup bytes_discrete (cache_key network host) c.cache
          ≡ some (record { addrs = addrs; expire = now +ℤ ttl })
        → Ready now l (cached c (parallel us))
    from_hosts :
        (hosts : Hosts) (r : Resolver U) (a : Lookup E)
        → is_hosted hosts network host ≡ true
        → l ≡ lookup_hosts hosts network host a
        → Ready now l (hosted hosts r)
    past_hosts :
        (hosts : Hosts) {r : Resolver U}
        → is_hosted hosts network host ≡ false
        → Ready now l r
        → Ready now l (hosted hosts r)

  store-ttl :
      (c : BootstrapCache) (a : Ask U E) (inner : Lookup E)
      → (cache_store c a.time a.network a.host inner).ttl ≡ c.ttl
  unfolding cache_store
  store-ttl c a inner = elim (Option-cases inner.err) [
    | inl h ↦ rw (h, cache_store) refl
    | inr (e, h) ↦ rw (h, cache_store) refl
  ]

  store_other :
      (c : BootstrapCache) (a : Ask U E) (inner : Lookup E)
      → IsOther a
      → lookup bytes_discrete
          (cache_key network host)
          (cache_store c a.time a.network a.host inner).cache
        ≡ lookup bytes_discrete (cache_key network host) c.cache
  unfolding cache_store
  store_other c a inner other = elim (Option-cases inner.err) [
    | inr (e, h) ↦ rw (h, cache_store) refl
    | inl h ↦
        rw (h, cache_store)
          (lookup-insert_ne bytes_discrete (cache_key a.network a.host) (cache_key network host)
            (record { addrs = inner.addrs; expire = a.time +ℤ c.ttl }) c.cache
            (λ same. other_key a other (sym same)))
  ]

  left_cached :
      (c : BootstrapCache) (us : List U) (a : Ask U E)
      → (left_by (cached c (parallel us)) a ≡ cached c (parallel us))
        ⊎ (left_by (cached c (parallel us)) a
            ≡ cached
                (cache_store c a.time a.network a.host (a.ask us a.network a.host))
                (parallel us))
  unfolding look_up
  left_cached c us a = elim (Option-cases (cache_hit c a.time a.network a.host)) [
    | inl miss ↦ inr (rw (miss, left_by, look_up) refl)
    | inr (addrs, hit) ↦ inl (rw (hit, left_by, look_up) refl)
  ]

  left_hosted :
      (hosts : Hosts) (r : Resolver U) (a : Ask U E)
      → (left_by (hosted hosts r) a ≡ hosted hosts r)
        ⊎ (left_by (hosted hosts r) a ≡ hosted hosts (left_by r a))
  unfolding look_up
  left_hosted hosts r a = elim (Bool-cases (is_hosted hosts a.network a.host)) [
    | inl yes_hosted ↦ inl (rw (yes_hosted, left_by, look_up) refl)
    | inr not_there ↦ inr (rw (not_there, left_by, look_up) refl)
  ]

  Blank-other :
      {r : Resolver U} (a : Ask U E)
      → IsOther a
      → Blank network host ttl r
      → Blank network host ttl (left_by r a)
  Blank-other a other (blank_cache c us same at) = elim (left_cached c us a) [
    | inl stays ↦ subst (Blank network host ttl) (sym stays) (blank_cache c us same at)
    | inr stores ↦ subst (Blank network host ttl) (sym stores) (
        blank_cache (cache_store c a.time a.network a.host (a.ask us a.network a.host)) us
          (store-ttl c a (a.ask us a.network a.host) ∙ same)
          (store_other c a (a.ask us a.network a.host) other ∙ at))
  ]
  Blank-other a other (blank_hosts hosts {r} b) = elim (left_hosted hosts r a) [
    | inl stays ↦ subst (Blank network host ttl) (sym stays) (blank_hosts hosts b)
    | inr goes ↦
        subst (Blank network host ttl) (sym goes) (blank_hosts hosts (Blank-other a other b))
  ]

  Ready-other :
      {now : ℤ} {l : Lookup E} {r : Resolver U} (a : Ask U E)
      → IsOther a
      → Ready now l r
      → Ready now l (left_by r a)
  Ready-other {now} {l} a other (from_cache c us addrs e at) = elim (left_cached c us a) [
    | inl stays ↦ subst (Ready now l) (sym stays) (from_cache c us addrs e at)
    | inr stores ↦ subst (Ready now l) (sym stores) (
        from_cache (cache_store c a.time a.network a.host (a.ask us a.network a.host)) us addrs e
          (store_other c a (a.ask us a.network a.host) other ∙ at))
  ]
  Ready-other {now} {l} a other (from_hosts hosts r x h e) = elim (left_hosted hosts r a) [
    | inl stays ↦ subst (Ready now l) (sym stays) (from_hosts hosts r x h e)
    | inr goes ↦ subst (Ready now l) (sym goes) (from_hosts hosts (left_by r a) x h e)
  ]
  Ready-other {now} {l} a other (past_hosts hosts {r} h b) = elim (left_hosted hosts r a) [
    | inl stays ↦ subst (Ready now l) (sym stays) (past_hosts hosts h b)
    | inr goes ↦ subst (Ready now l) (sym goes) (past_hosts hosts h (Ready-other a other b))
  ]

  Blank-after :
      (asks : List (Ask U E)) (r : Resolver U)
      → All IsOther asks
      → Blank network host ttl r
      → Blank network host ttl (after_asks r asks)
  Blank-after [] r others b = b
  Blank-after (a ∷ asks) r others b =
      Blank-after asks (left_by r a) others.1 (Blank-other a others.0 b)

  Ready-after :
      {now : ℤ} {l : Lookup E} (asks : List (Ask U E)) (r : Resolver U)
      → All IsOther asks
      → Ready now l r
      → Ready now l (after_asks r asks)
  Ready-after [] r others b = b
  Ready-after (a ∷ asks) r others b =
      Ready-after asks (left_by r a) others.1 (Ready-other a others.0 b)

  module _ (ask : List U → Network → Bytes → Lookup E) (prefers : ℕ → Family) (now : ℤ) where
    abbrev this : Ask U E
    this = record { ask = ask; prefers = prefers; time = now; network = network; host = host }

    Ready-first :
        {r : Resolver U}
        → Blank network host ttl r
        → (answer_of r this).err ≡ none
        → Ready now (answer_of r this) (left_by r this)
    unfolding look_up
    Ready-first (blank_cache c us same at) =
        rw (miss_of_blank network host ttl c now at, answer_of, left_by)
          (λ good.
            from_cache (cache_store c now network host (ask us network host)) us
              (ask us network host).addrs
              (ap (λ e. record { addrs = (ask us network host).addrs; err = e }) good)
              (stored network host ttl now c (ask us network host) good same))
    Ready-first (blank_hosts hosts {r} b) = elim (Bool-cases (is_hosted hosts network host)) [
      | inl h ↦ λ good.
          from_hosts hosts
            (if is_hosted hosts network host then r else (look_up ask prefers now r network host).0)
            (answer_of r this) h refl
      | inr h ↦ λ good. rw h (
          subst (λ l. Ready now l (hosted hosts (left_by r this)))
            (sym (not_hosted network host hosts (answer_of r this) h))
            (past_hosts hosts h (
              Ready-first b (
                sym (ap (λ l. l.err) (not_hosted network host hosts (answer_of r this) h))
                ∙ good))))
    ]

  Ready-answer :
      {now : ℤ} {l : Lookup E} {r : Resolver U} (ask : List U → Network → Bytes → Lookup E)
      (prefers : ℕ → Family) (later : ℤ)
      → later <ℤ now +ℤ ttl
      → Ready now l r
      → (look_up ask prefers later r network host).1 ≡ l
  unfolding look_up
  Ready-answer {now} ask prefers later young (from_cache c us addrs e at) =
      rw (hit_of_stored network host ttl c addrs now later at young) (sym e)
  Ready-answer ask prefers later young (from_hosts hosts r a h e) =
      hosted_same network host hosts (look_up ask prefers later r network host).1 a h ∙ sym e
  Ready-answer ask prefers later young (past_hosts hosts {r} h b) =
      not_hosted network host hosts (look_up ask prefers later r network host).1 h
      ∙ Ready-answer ask prefers later young b

module _ {U : Type 0} (lib : ProxyLibrary U) (cfg : Config) (network : Network) (host : Bytes)
    (lives : pos 0 <ℤ cfg.bootstrap_cache_ttl) where
  abbrev IsBlank : Resolver U → Type 0
  IsBlank r = Blank network host cfg.bootstrap_cache_ttl r

  cached_resolver-Blank : (us : List U) → IsBlank (cached_resolver cfg us)
  unfolding cached_resolver new_cache lookup
  cached_resolver-Blank us =
      subst IsBlank (sym same)
        (blank_cache (record { ttl = cfg.bootstrap_cache_ttl; cache = [] }) us refl refl)
    where
      same :
          cached_resolver cfg us
          ≡ cached (record { ttl = cfg.bootstrap_cache_ttl; cache = [] }) (parallel us)
      same = ground arith

  hosted_resolver-Blank :
      (hosts : List (Bytes × List Bytes)) (r r' : Resolver U)
      → hosted_resolver lib hosts r ≡ some r'
      → IsBlank r
      → IsBlank r'
  unfolding hosted_resolver
  hosted_resolver-Blank [] r r' e b = subst IsBlank (some_inj.0 e) b
  hosted_resolver-Blank (h ∷ hs) r r' e b = elim (Option-cases (parse_hosts lib (h ∷ hs))) [
    | inl bad ↦ absurd (ground (arith, bad))
    | inr (table, good) ↦
        subst IsBlank (some_inj.0 (sym (rw (good, hosted_resolver) refl) ∙ e))
          (blank_hosts (new_hosts table) b)
  ]

  build_base_opts-Blank : (o : Options U) → build_base_opts lib cfg ≡ built o → IsBlank o.bootstrap
  unfolding build_base_opts
  build_base_opts-Blank o e =
      elim (Option-cases (lib.parse_upstreams cfg.bootstrap cfg.probe_timeout)) [
        | inl bad ↦ absurd (ground (arith, bad))
        | inr (us, good) ↦
            elim (Option-cases (hosted_resolver lib cfg.hosts (cached_resolver cfg us))) [
              | inl bad ↦ absurd (ground (arith, good, bad))
              | inr (r, found) ↦ subst IsBlank (ground (arith, good, found)) (
                  hosted_resolver-Blank cfg.hosts (cached_resolver cfg us) r found
                    (cached_resolver-Blank us))
            ]
      ]

  -- Of the resolvers of the options that are built for a configuration with a bootstrap lifetime: when
  -- a host is looked up in a network for the first time and that lookup does not fail, the next lookup
  -- of that host in that network, if it is within the lifetime of the first, has the same answer,
  -- whatever the upstreams then say, and whatever was looked up of other hosts or in other networks
  -- before and in between, one lookup after the other.
  pub build_base_opts-look_up :
      {E : Type 0} (o : Options U) (before between : List (Ask U E))
      (ask ask' : List U → Network → Bytes → Lookup E) (prefers prefers' : ℕ → Family)
      (now later : ℤ)
      → build_base_opts lib cfg ≡ built o
      → All (IsOther network host cfg.bootstrap_cache_ttl) before
      → All (IsOther network host cfg.bootstrap_cache_ttl) between
      → later <ℤ now +ℤ cfg.bootstrap_cache_ttl
      → let first = look_up ask prefers now (after_asks o.bootstrap before) network host in
        first.1.err ≡ none
        → (look_up ask' prefers' later (after_asks first.0 between) network host).1 ≡ first.1
  build_base_opts-look_up o before between ask ask' prefers prefers' now later e others more young
        good =
      Ready-answer network host cfg.bootstrap_cache_ttl ask' prefers' later young (
        Ready-after network host cfg.bootstrap_cache_ttl between
          (look_up ask prefers now (after_asks o.bootstrap before) network host).0 more
          (Ready-first network host cfg.bootstrap_cache_ttl ask prefers now
            (Blank-after network host cfg.bootstrap_cache_ttl before o.bootstrap others
              (build_base_opts-Blank o e))
            good))
