-- ===== src/Command/Listeners/Enabled.antt =====
-- With a valid configuration the start-up opens what the configuration asks for.
use dnsproxy_router.Command.Reloading.{load_config-IsValid}
use dnsproxy_router.Config.Normal.{load_config, accepted}
use dnsproxy_router.Command.Options.{ProxyLibrary, Options, build_base_opts, built}
use dnsproxy_router.Command.Listeners.{
  Options, ProxyConfig, ServeLibrary, get_route, post_route, port_if_enabled, Boot, with_doh,
  with_tls, plain_proxy, proxy_config, start_with, start_up, healthz, prepared,
}
use dnsproxy_router.Config.{
  Config, NetLibrary, ListenersConfig, ListenerConfig, EcsConfig, needs_tls,
}
use dnsproxy_router.Config.Valid.{IsListening, IsPort, IsEcs}
use dnsproxy_router.Ecs
use dnsproxy_router.Handler
use dnsproxy_router.Handler.{new}
use dnsproxy_router.Command.{boot}
use dnsproxy_router.Ecs.{EcsPolicy, off, pass, override, ok}
use dnsproxy_router.Prelude.{
  ◌++◌, codes, ◌⊎◌, ◌≡◌, inl, inr, refl, Option, List, Bytes, true, false, none, some, [], ◌∷◌,
  Bool-cases, arith,
}
use dnsproxy_router.Prelude.Int.{ℤ, pos, ◌≤ℤ◌}

policy_of_valid :
    (net : NetLibrary) (e : EcsConfig)
    → IsEcs net e
    → (policy : EcsPolicy) × (Ecs.new net.parse_prefix e.mode e.address ≡ ok policy)
unfolding Ecs.new
policy_of_valid net e (inl h) = (record { mode = off; prefix = none }, rw (Ecs.new, h) refl)
policy_of_valid net e (inr (inl h)) = (record { mode = pass; prefix = none }, rw (Ecs.new, h) refl)
policy_of_valid net e (inr (inr (h, (p, k)))) =
    (record { mode = override; prefix = some p }, rw (Ecs.new, h, k) refl)

-- a port that can be listened on
abbrev pub IsOpenable : ℤ → Type 0
IsOpenable port = (pos 1 ≤ℤ port) × (port ≤ℤ pos 65535)

-- A listener that is enabled has its port, which can be listened on, and another one has none.
abbrev pub Opens : ListenerConfig → List ℤ → Type 0
Opens l ports =
    ((l.enabled ≡ true) × (ports ≡ l.port ∷ []) × IsOpenable l.port)
    ⊎ ((l.enabled ≡ false) × (ports ≡ []))

openable : (l : ListenerConfig) → IsPort l → l.enabled ≡ true → IsOpenable l.port
openable l (low, inl closed) on = absurd (cc)
openable l (low, inr high) on = (low, high)

port_if_enabled-Opens : (l : ListenerConfig) → IsPort l → Opens l (port_if_enabled l)
port_if_enabled-Opens l p = elim (Bool-cases l.enabled) [
  | inl on ↦ inl (on, rw on refl, openable l p on)
  | inr closed ↦ inr (closed, rw closed refl)
]

no_tls :
    (l : ListenersConfig)
    → needs_tls l ≡ false
    → (l.doh.enabled ≡ false) × (l.dot.enabled ≡ false) × (l.doq.enabled ≡ false)
unfolding needs_tls
no_tls l h = ground arith

some_tls :
    (l : ListenersConfig)
    → needs_tls l ≡ true
    → (l.doh.enabled ≡ true) ⊎ (l.dot.enabled ≡ true) ⊎ (l.doq.enabled ≡ true)
unfolding needs_tls
some_tls l h = ground arith

module _ {A C : Type 0} (serve : ServeLibrary A C) where
  -- The proxy listens for what is enabled and for nothing else.
  pub record Listens (cfg : Config) (pc : ProxyConfig A C) : Type 0 where
    pub udp : Opens cfg.listeners.plain_dns pc.udp
    pub tcp : Opens cfg.listeners.plain_dns pc.tcp
    pub dot : Opens cfg.listeners.dot pc.tls
    pub doq : Opens cfg.listeners.doq pc.quic
    pub doh :
        ((cfg.listeners.doh.enabled ≡ false) × (pc.http ≡ none))
        ⊎ ((cfg.listeners.doh.enabled ≡ true)
            × IsOpenable cfg.listeners.doh.port
            × ((a : A) × (serve.any_address cfg.listeners.doh.port ≡ some a)
                × (pc.http
                    ≡ some (record {
                      listen = a ∷ [];
                      patterns =
                          (codes "GET " ++ cfg.listeners.doh.path)
                          ∷ (codes "POST " ++ cfg.listeners.doh.path)
                          ∷ [];
                      http3 = cfg.listeners.doh.http3;
                    }))))
    pub secured :
        ((cfg.listeners.doh.enabled ≡ false)
          × (cfg.listeners.dot.enabled ≡ false)
          × (cfg.listeners.doq.enabled ≡ false)
          × (pc.certificates ≡ []))
        ⊎ (((cfg.listeners.doh.enabled ≡ true)
              ⊎ (cfg.listeners.dot.enabled ≡ true)
              ⊎ (cfg.listeners.doq.enabled ≡ true))
            × ((c : C) × (serve.load_certificate cfg.cert.cert_path cfg.cert.key_path ≡ some c)
                × (pc.certificates ≡ c ∷ [])))

  module _ (net : NetLibrary) (cfg : Config) (v : IsListening net cfg.listeners) where
    plain-Listens : needs_tls cfg.listeners ≡ false → Listens cfg (plain_proxy serve cfg)
    plain-Listens h =
        let (doh, dot, doq) = no_tls cfg.listeners h in
        record {
          udp = port_if_enabled-Opens cfg.listeners.plain_dns v.plain_port;
          tcp = port_if_enabled-Opens cfg.listeners.plain_dns v.plain_port;
          dot = inr (dot, refl);
          doq = inr (doq, refl);
          doh = inl (doh, refl);
          secured = inl (doh, dot, doq, refl);
        }

    abbrev secure_proxy : C → ProxyConfig A C
    secure_proxy c = record (plain_proxy serve cfg) {
      certificates = c ∷ [];
      tls = port_if_enabled cfg.listeners.dot;
      quic = port_if_enabled cfg.listeners.doq;
    }

    module _ (c : C) (loaded : serve.load_certificate cfg.cert.cert_path cfg.cert.key_path ≡ some c)
        (needed : needs_tls cfg.listeners ≡ true) where
      secure-Listens : cfg.listeners.doh.enabled ≡ false → Listens cfg (secure_proxy c)
      secure-Listens h = record {
        udp = port_if_enabled-Opens cfg.listeners.plain_dns v.plain_port;
        tcp = port_if_enabled-Opens cfg.listeners.plain_dns v.plain_port;
        dot = port_if_enabled-Opens cfg.listeners.dot v.dot_port;
        doq = port_if_enabled-Opens cfg.listeners.doq v.doq_port;
        doh = inl (h, refl);
        secured = inr (some_tls cfg.listeners needed, (c, loaded, refl));
      }

      abbrev http_proxy : A → ProxyConfig A C
      http_proxy a = record (secure_proxy c) {
        http = some (record {
          listen = a ∷ [];
          patterns = get_route cfg.listeners.doh.path ∷ post_route cfg.listeners.doh.path ∷ [];
          http3 = cfg.listeners.doh.http3;
        });
      }

      http-Listens :
          (a : A)
          → cfg.listeners.doh.enabled ≡ true
          → serve.any_address cfg.listeners.doh.port ≡ some a
          → Listens cfg (http_proxy a)
      http-Listens a h at = record {
        udp = port_if_enabled-Opens cfg.listeners.plain_dns v.plain_port;
        tcp = port_if_enabled-Opens cfg.listeners.plain_dns v.plain_port;
        dot = port_if_enabled-Opens cfg.listeners.dot v.dot_port;
        doq = port_if_enabled-Opens cfg.listeners.doq v.doq_port;
        doh = inr (h, openable cfg.listeners.doh v.doh_port h, (a, at, refl));
        secured = inr (some_tls cfg.listeners needed, (c, loaded, refl));
      }

    proxy_config-Listens :
        (needs_tls cfg.listeners ≡ true
          → (c : C) × (serve.load_certificate cfg.cert.cert_path cfg.cert.key_path ≡ some c))
        → ((port : ℤ) → IsOpenable port → (a : A) × (serve.any_address port ≡ some a))
        → (pc : ProxyConfig A C) × (proxy_config serve cfg ≡ prepared pc) × Listens cfg pc
    unfolding proxy_config
    proxy_config-Listens loads opens = elim (Bool-cases (needs_tls cfg.listeners)) [
      | inr h ↦ (plain_proxy serve cfg, rw (proxy_config, h) refl, plain-Listens h)
      | inl h ↦
          let (c, good) = loads h in
          elim (Bool-cases cfg.listeners.doh.enabled) [
            | inr shut ↦ (
              secure_proxy c,
              rw (proxy_config, h, with_tls, good, with_doh, shut) refl,
              secure-Listens c good h shut,
            )
            | inl on ↦
                let (a, at) =
                  opens cfg.listeners.doh.port (openable cfg.listeners.doh v.doh_port on) in
                (
                  http_proxy c good h a,
                  rw (proxy_config, h, with_tls, good, with_doh, on, at) refl,
                  http-Listens c good h a on at,
                )
          ]
    ]

  module _ {U : Type 0} (net : NetLibrary) (lib : ProxyLibrary U)
      (placeholder : Options U → Option (List U))
      (opens : (port : ℤ) → IsOpenable port → (a : A) × (serve.any_address port ≡ some a)) where
    -- If the configuration file is accepted, the options are built, the placeholder's address parses,
    -- the certificate loads if one is needed and netip takes each port from 1 to 65535, main gets as far as the call of
    -- `proxy.New`, with a configuration of the proxy that has, for each of the plain, DoT, DoQ and DoH
    -- listeners that is enabled, its port, which is from 1 to 65535, and nothing for the others: plain
    -- DNS over UDP and TCP, DoH with GET and POST on its path; with the configured certificate if DoT,
    -- DoQ or DoH is enabled and with none otherwise; and the handler begins without routes.
    pub start_up-Listens :
        (file : Option Bytes) (decode : Bytes → Option Config) (cfg : Config) (opts : Options U)
        (us : List U)
        → load_config net file decode ≡ accepted cfg
        → build_base_opts lib cfg ≡ built opts
        → placeholder opts ≡ some us
        → (needs_tls cfg.listeners ≡ true
            → (c : C) × (serve.load_certificate cfg.cert.cert_path cfg.cert.key_path ≡ some c))
        → (b : Boot A C) × (start_up serve net lib placeholder file decode ≡ prepared b)
          × Listens cfg b.proxy
          × (b.process ≡ boot cfg)
          × (healthz b.handler ≡ 503)
    unfolding start_up start_with healthz Handler.ready new
    start_up-Listens file decode cfg opts us load build place loads =
        let v = load_config-IsValid net file decode cfg load in
        let (policy, allowed) = policy_of_valid net cfg.ecs v.ecs_policy in
        let (pc, made, listens) = proxy_config-Listens net cfg v.listening loads opens in
        (
          record {
            handler = new (some (record { current = none })) policy cfg.dnssec;
            process = boot cfg;
            proxy = pc;
          },
          rw (start_up, load, build, start_with, allowed, place, made) refl,
          listens,
          refl,
          refl,
        )
