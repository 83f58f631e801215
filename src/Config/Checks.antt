-- ===== src/Config/Checks.antt =====
-- internal/config/config.go, the functions that look for an error: `none` is Go's `nil`.
use dnsproxy_router.Prelude.{
  ℕ, Bool, true, false, not, ◌||◌, ◌&&◌, ◌==◌, Option, none, some, List, [], ◌∷◌, Bytes,
  if◌then◌else◌,
}
use dnsproxy_router.Prelude.Int.{ℤ, pos, ltb_ℤ}
use dnsproxy_router.Ecs.{new, ok, err}
use dnsproxy_router.Config.{
  Named, Priority, EcsConfig, ListenerConfig, needs_tls, Config, ConfigError, NetLibrary, known,
  other, path_slash, path_uri, path_end, cert_paths, cert_mode, ttl_negative, ttl_order, host_name,
  provider_name, bad_threshold, bad_cooldown, weight_name, dns_empty, dns_name, bad_port,
  bad_weight, host_addrs, provider_priority, dns_modes, host_addr, bad_ecs,
}

abbrev pub check : Bool → ConfigError → Option ConfigError
check bad e = if bad then some e else none

-- `if err := first; err != nil { return err }`, and then the second
abbrev pub or_then : Option ConfigError → Option ConfigError → Option ConfigError
or_then none e = e
or_then (some e) later = some e

-- A loop that returns the first error.
unfoldable pub first_error {ℓ} :
    {A : Type ℓ} → (A → Option ConfigError) → List A → Option ConfigError
first_error f [] = none
first_error f (x ∷ xs) = or_then (f x) (first_error f xs)

abbrev pub is_empty {ℓ} : {A : Type ℓ} → List A → Bool
is_empty [] = true
is_empty (x ∷ xs) = false

abbrev pub is_known : {A : Type 0} → Named A → Bool
is_known (known a) = true
is_known (other text) = false

abbrev pub last_or : ℕ → Bytes → ℕ
last_or b [] = b
last_or b (x ∷ xs) = last_or x xs

-- `validatePort`
unfoldable pub port_error : Bytes × ListenerConfig → Option ConfigError
port_error (name, l) =
    check (l.enabled && (ltb_ℤ l.port (pos 1) || ltb_ℤ (pos 65535) l.port)) (bad_port name l.port)

module _ (net : NetLibrary) where
  -- `validateDoHPath`
  unfoldable pub path_error : Bytes → Option ConfigError
  path_error [] = none
  path_error (b ∷ bs) = or_then (check (not (b == b'/')) path_slash) (
      or_then (check (not (net.parses_uri (b ∷ bs))) path_uri)
        (check (not (is_empty bs) && (last_or b bs == b'/')) path_end))

  -- `validateHosts`
  unfoldable pub host_error : Bytes × List Bytes → Option ConfigError
  unfolding first_error
  host_error (name, addrs) = or_then (check (is_empty name) host_name) (
      or_then (check (is_empty addrs) (host_addrs name))
        (first_error (λ a. check (not (net.parses_addr a)) (host_addr name a)) addrs))

  -- `ecs.New`
  unfoldable pub ecs_error : EcsConfig → Option ConfigError
  unfolding new
  ecs_error e = elim (new net.parse_prefix e.mode e.address) [
    | ok p ↦ none
    | err f ↦ some (bad_ecs f)
  ]

unfoldable pub cert_error : Config → Option ConfigError
unfolding needs_tls
cert_error c =
    if needs_tls c.listeners
    then or_then (check (is_empty c.cert.cert_path || is_empty c.cert.key_path) cert_paths)
        (check (not (is_known c.cert.mode)) cert_mode)
    else none

unfoldable pub ttl_error : Config → Option ConfigError
ttl_error c = or_then (check (ltb_ℤ c.ttl_min (pos 0) || ltb_ℤ c.ttl_max (pos 0)) ttl_negative) (
    check (ltb_ℤ (pos 0) c.ttl_min && ltb_ℤ (pos 0) c.ttl_max && ltb_ℤ c.ttl_max c.ttl_min)
      ttl_order)

unfoldable pub provider_error : Bytes × Named Priority → Option ConfigError
provider_error (name, prio) =
    or_then (check (is_empty name) provider_name)
      (check (not (is_known prio)) (provider_priority name))

unfoldable pub breaker_error : Config → Option ConfigError
breaker_error c =
    or_then (check (ltb_ℤ c.breaker_fail_threshold (pos 0)) bad_threshold)
      (check (ltb_ℤ c.breaker_cooldown (pos 0)) bad_cooldown)

unfoldable pub weight_error : Bytes × ℤ → Option ConfigError
weight_error (name, w) =
    or_then (check (is_empty name) weight_name)
      (check (ltb_ℤ w (pos 1) || ltb_ℤ (pos 100) w) (bad_weight name w))

unfoldable pub provider_modes_error : Bytes × List (Bytes × Bytes) → Option ConfigError
provider_modes_error (name, modes) =
    or_then (check (is_empty name) dns_name) (check (is_empty modes) (dns_modes name))

unfoldable pub dns_error : Config → Option ConfigError
unfolding first_error provider_modes_error
dns_error c = or_then (check (is_empty c.dns) dns_empty) (first_error provider_modes_error c.dns)
