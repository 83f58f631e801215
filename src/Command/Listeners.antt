-- ===== src/Command/Listeners.antt =====
-- cmd/dnsproxy/main.go, main up to the call of `proxy.New`: the start-up, and the proxy's
-- configuration. What the TLS library makes of the certificate's files, what netip makes of an
-- address, and what the proxy library makes of the placeholder's address are arguments.
pub mod Enabled
pub mod Health
use dnsproxy_router.Command.Options.{
  ProxyLibrary, Options, build_base_opts, built, unparsed, panics,
}
use dnsproxy_router.Config.{Config, NetLibrary, ListenersConfig, ListenerConfig, needs_tls}
use dnsproxy_router.Config.Normal.{load_config, accepted, refused}
use dnsproxy_router.Ecs
use dnsproxy_router.Ecs.{EcsPolicy, Mode, off, pass, override, unknown, ok, err}
use dnsproxy_router.Handler
use dnsproxy_router.Handler.{Handler, new}
use dnsproxy_router.Scheduler.Round.{Aggregate}
use dnsproxy_router.Command.{Process, boot}
use dnsproxy_router.Prelude.{
  ℕ, Bool, true, false, Option, none, some, List, [], ◌∷◌, ◌++◌, Bytes, codes, if◌then◌else◌,
}
use dnsproxy_router.Prelude.Int.{ℤ}

-- The configuration of the inbound DoH.
pub record HttpConfig (A : Type 0) : Type 0 where
  pub listen : List A
  pub patterns : List Bytes
  pub http3 : Bool

-- The fields of `proxy.Config` that depend on the configuration. `A` is the type of addresses with a
-- port, `C` that of certificates.
pub record ProxyConfig (A C : Type 0) : Type 0 where
  pub ecs : Bool
  pub udp : List ℤ
  pub tcp : List ℤ
  pub certificates : List C
  pub tls : List ℤ
  pub quic : List ℤ
  pub http : Option (HttpConfig A)

-- What ends the start-up.
pub data StartError : Type 0 where
  no_config no_options bad_policy no_placeholder no_certificate bad_address panic : StartError

pub data Started (T : Type 0) : Type 0 where
  prepared : T → Started T
  exit : StartError → Started T

-- What the code uses of the TLS library and of netip: the certificate of two files, and the address
-- of all interfaces with a port.
pub record ServeLibrary (A C : Type 0) : Type 0 where
  pub load_certificate : Bytes → Bytes → Option C
  pub any_address : ℤ → Option A

-- `http.MethodGet + " " + path`
abbrev pub get_route : Bytes → Bytes
get_route path = codes "GET " ++ path

abbrev pub post_route : Bytes → Bytes
post_route path = codes "POST " ++ path

abbrev pub port_if_enabled : ListenerConfig → List ℤ
port_if_enabled l = if l.enabled then l.port ∷ [] else []

abbrev pub is_pass : Mode → Bool
is_pass off = false
is_pass pass = true
is_pass override = false
is_pass (unknown text) = false

-- What the start-up leaves: the handler, the process, and the proxy's configuration.
pub record Boot (A C : Type 0) : Type 0 where
  pub handler : Handler Aggregate
  pub process : Process
  pub proxy : ProxyConfig A C

module _ {A C : Type 0} (serve : ServeLibrary A C) where
  -- the DoH listener
  unfoldable pub with_doh : ListenerConfig → ProxyConfig A C → Started (ProxyConfig A C)
  with_doh l pc =
      if l.enabled
      then elim (serve.any_address l.port) [
        | none ↦ exit bad_address
        | some a ↦ prepared (record pc {
          http = some (record {
            listen = a ∷ [];
            patterns = get_route l.path ∷ post_route l.path ∷ [];
            http3 = l.http3;
          });
        })
      ]
      else prepared pc

  -- the listeners that share the certificate
  unfoldable pub with_tls : Config → ProxyConfig A C → Started (ProxyConfig A C)
  unfolding with_doh
  with_tls cfg pc = elim (serve.load_certificate cfg.cert.cert_path cfg.cert.key_path) [
    | none ↦ exit no_certificate
    | some c ↦ with_doh cfg.listeners.doh (record pc {
      certificates = c ∷ [];
      tls = port_if_enabled cfg.listeners.dot;
      quic = port_if_enabled cfg.listeners.doq;
    })
  ]

  abbrev pub plain_proxy : Config → ProxyConfig A C
  plain_proxy cfg = record {
    ecs = is_pass cfg.ecs.mode;
    udp = port_if_enabled cfg.listeners.plain_dns;
    tcp = port_if_enabled cfg.listeners.plain_dns;
    certificates = [];
    tls = [];
    quic = [];
    http = none;
  }

  unfoldable pub proxy_config : Config → Started (ProxyConfig A C)
  unfolding with_tls
  proxy_config cfg =
      if needs_tls cfg.listeners then with_tls cfg (plain_proxy cfg) else prepared (plain_proxy cfg)

  abbrev pub booted : Config → EcsPolicy → Started (ProxyConfig A C) → Started (Boot A C)
  booted cfg policy (exit e) = exit e
  booted cfg policy (prepared pc) = prepared (record {
    handler = new (some (record { current = none })) policy cfg.dnssec;
    process = boot cfg;
    proxy = pc;
  })

  module _ {U : Type 0} (net : NetLibrary) (lib : ProxyLibrary U)
      (placeholder : Options U → Option (List U)) where
    -- from the policy on
    unfoldable pub start_with : Config → Options U → Started (Boot A C)
    unfolding proxy_config
    start_with cfg opts = elim (Ecs.new net.parse_prefix cfg.ecs.mode cfg.ecs.address) [
      | err e ↦ exit bad_policy
      | ok policy ↦ elim (placeholder opts) [
        | none ↦ exit no_placeholder
        | some us ↦ booted cfg policy (proxy_config cfg)
      ]
    ]

    -- `main` up to `proxy.New`
    unfoldable pub start_up : Option Bytes → (Bytes → Option Config) → Started (Boot A C)
    unfolding start_with
    start_up file decode = elim (load_config net file decode) [
      | refused e ↦ exit no_config
      | accepted cfg ↦ elim (build_base_opts lib cfg) [
        | unparsed ↦ exit no_options
        | panics ↦ exit panic
        | built opts ↦ start_with cfg opts
      ]
    ]

-- the handler of `/healthz`: the status
unfoldable pub healthz : {R : Type 0} → Handler R → ℕ
unfolding Handler.ready
healthz h = if Handler.ready h then 200 else 503
