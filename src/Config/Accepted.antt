-- ===== src/Config/Accepted.antt =====
-- What `normalize` accepts, and what it returns.
use dnsproxy_router.Config.Meaning.{
  first_error-none, first_error-Perm, port_error-IsPort, path_error-IsPath,
}
use dnsproxy_router.Config.Valid.{IsNonempty, IsPath, IsListening}
use dnsproxy_router.Config.Normal.{
  ◌>>=◌, Result, refuse, positive_or, with_ports, no_listener_error, named_listeners, with_doh_path,
  with_path, validate_listeners, accepted, refused,
}
use dnsproxy_router.Config.Checks.{first_error, port_error, path_error}
use dnsproxy_router.Config.{ListenerConfig, Config, ConfigError, NetLibrary}
use dnsproxy_router.Prelude.{
  [], ℕ, ◌≡◌, ◌⊎◌, inl, inr, refl, sym, subst, ◌∙◌, true, false, Option, none, some, Bool-cases,
  suc, if◌then◌else◌, ◌∷◌, Bytes, arith,
}
use dnsproxy_router.Prelude.Int.{ℤ, pos, ◌≤ℤ◌}

pub refuse-accepted :
    (e : Option ConfigError) (x : Config) (k : Config → Result) (d : Config)
    → (refuse e x >>= k) ≡ accepted d
    → (e ≡ none) × (k x ≡ accepted d)
refuse-accepted none x k d h = (refl, h)
refuse-accepted (some e) x k d h = absurd (ground arith)

pub last-accepted :
    (e : Option ConfigError) (x d : Config) → refuse e x ≡ accepted d → (e ≡ none) × (x ≡ d)
last-accepted none x d h = (refl, ground arith)
last-accepted (some e) x d h = absurd (ground arith)

>>=-assoc : (m : Result) (f g : Config → Result) → (m >>= f >>= g) ≡ (m >>= λ x. f x >>= g)
>>=-assoc (accepted c) f g = refl
>>=-assoc (refused e) f g = refl

-- the configuration after the two writes of `validateListeners`
abbrev pub settled : Config → Config
settled c = with_path (with_ports c)

pub positive : (n : ℕ) (x : ℤ) → pos 1 ≤ℤ positive_or (pos (suc n)) x
positive n x = ground arith

IsNonempty-path : (l : ListenerConfig) → l.enabled ≡ true → IsNonempty (with_doh_path l).path
IsNonempty-path l h = ground arith

module _ (net : NetLibrary) where
  path_error-listener :
      (l : ListenerConfig)
      → (if l.enabled then path_error net l.path else none) ≡ none
      → (l.enabled ≡ true → IsNonempty l.path)
      → (l.enabled ≡ false) ⊎ IsPath net.parses_uri l.path
  path_error-listener l h some_path = elim (Bool-cases l.enabled) [
    | inr f ↦ inl f
    | inl t ↦ inr (
        path_error-path l.path (some_path t)
          (subst (λ b. (if b then path_error net l.path else none) ≡ none) t h))
  ]
    where
      path_error-path :
          (p : Bytes) → IsNonempty p → path_error net p ≡ none → IsPath net.parses_uri p
      path_error-path [] h k = absurd h
      path_error-path (b ∷ bs) h k = (path_error-IsPath net b bs).0 k

  module _ (c : Config) where
    listening :
        no_listener_error c.listeners ≡ none
        → first_error port_error (net.visit (named_listeners (with_ports c).listeners)) ≡ none
        → (if c.listeners.doh.enabled then path_error net (settled c).listeners.doh.path else none)
          ≡ none
        → IsListening net (settled c).listeners
    unfolding with_ports with_path
    listening a b e =
        let ports = (first_error-none port_error (named_listeners (with_ports c).listeners)).0 (
          (first_error-Perm port_error _ _
              (net.visit_perm (named_listeners (with_ports c).listeners))).0
            b) in
        record {
          some_listener = ground arith;
          doh_port = (port_error-IsPort _ (positive 442 c.listeners.doh.port)).0 ports.0;
          dot_port = (port_error-IsPort _ (positive 852 c.listeners.dot.port)).0 ports.1.0;
          doq_port = (port_error-IsPort _ (positive 852 c.listeners.doq.port)).0 ports.1.1.0;
          plain_port =
              (port_error-IsPort _ (positive 52 c.listeners.plain_dns.port)).0 ports.1.1.1.0;
          doh_path =
              path_error-listener (settled c).listeners.doh e (IsNonempty-path c.listeners.doh);
        }

    pub validate-accepted :
        (k : Config → Result) (d : Config)
        → (validate_listeners net c >>= k) ≡ accepted d
        → IsListening net (settled c).listeners × (k (settled c) ≡ accepted d)
    unfolding validate_listeners with_ports with_path
    validate-accepted k d h =
        let (a, h1) =
          refuse-accepted _ _ _ d
            (sym (>>=-assoc (refuse (no_listener_error c.listeners) (with_ports c)) _ k) ∙ h) in
        let (b, h2) = refuse-accepted _ _ _ d (
          sym (
            >>=-assoc
              (refuse
                (first_error port_error (net.visit (named_listeners (with_ports c).listeners)))
                (settled c))
              _ k)
          ∙ h1) in
        let (e, h3) = refuse-accepted _ (settled c) k d h2 in (listening a b e, h3)
