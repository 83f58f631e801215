-- ===== src/Config/Targets.antt =====
-- internal/config/config.go, targetFromAddr, UpstreamTargets and UpstreamTargetsFor: the hosts and
-- ports of the upstreams' addresses, for the choice of an address family.
pub mod RoundTrip
use dnsproxy_router.Config.Duration.{digits}
use dnsproxy_router.Config.Checks.{is_empty}
use dnsproxy_router.Config.{Config, NetLibrary, other}
use dnsproxy_router.Prelude.{
  ℕ, suc, ◌-◌, ◌*◌, ◌+◌, ltb, Bool, true, false, not, ◌&&◌, ◌||◌, ◌==◌, Option, none, some, List,
  [], ◌∷◌, ◌++◌, map, Bytes, bytes_discrete, lookup, insert, if◌then◌else◌, codes,
}
use dnsproxy_router.Prelude.Sort.{SliceSort}
use dnsproxy_router.Cache.Key.{to_lower}
use dnsproxy_router.Scheduler.{bytes_less}

pub record UpstreamTarget : Type 0 where
  pub host : Bytes
  pub port : ℕ

-- what follows `://`, at the front of a text
abbrev pub after_mark : Bytes → Option Bytes
after_mark (x ∷ y ∷ z ∷ after) = if x == b':' && y == b'/' && z == b'/' then some after else none
after_mark _ = none

-- the text before the first `://`, and the text after it; without one, no scheme and the whole text
unfoldable pub split_scheme : Bytes → Option (Bytes × Bytes)
split_scheme [] = none
split_scheme (b ∷ bs) =
    let rest = split_scheme bs in
    elim (after_mark (b ∷ bs)) [
      | some after ↦ some ([], after)
      | none ↦ elim rest [ none ↦ none | some (scheme, after) ↦ some (b ∷ scheme, after) ]
    ]

unfoldable pub before_slash : Bytes → Bytes
before_slash [] = []
before_slash (b ∷ bs) = let rest = before_slash bs in if b == b'/' then [] else b ∷ rest

-- the text before the first colon, and the text after it
unfoldable pub split_colon : Bytes → Option (Bytes × Bytes)
split_colon [] = none
split_colon (b ∷ bs) =
    let rest = split_colon bs in
    if b == b':'
    then some ([], bs)
    else elim rest [ none ↦ none | some (host, port) ↦ some (b ∷ host, port) ]

abbrev pub is_none : {A : Type 0} → Option A → Bool
is_none none = true
is_none (some a) = false

-- `i > 0` for the last colon, which is the only one
abbrev pub only_colon : Bytes × Bytes → Bool
only_colon (host, port) = not (is_empty host) && is_none (split_colon port)

abbrev pub is_bracket : ℕ → Bool
is_bracket b = b == 91 || b == 93

-- `strings.Trim(s, "[]")`, from the right and from the left
abbrev pub cons_unless_bracket : ℕ → Bytes → Bytes
cons_unless_bracket b [] = if is_bracket b then [] else b ∷ []
cons_unless_bracket b (c ∷ cs) = b ∷ c ∷ cs

unfoldable pub trim_right : Bytes → Bytes
trim_right [] = []
trim_right (b ∷ bs) = cons_unless_bracket b (trim_right bs)

unfoldable pub trim_left : Bytes → Bytes
trim_left [] = []
trim_left (b ∷ bs) = let rest = trim_left bs in if is_bracket b then rest else b ∷ bs

-- `strconv.ParseUint(s, 10, 16)`
unfoldable pub parse_uint16 : Bytes → Option ℕ
unfolding digits
parse_uint16 [] = none
parse_uint16 (b ∷ bs) =
    let (n, rest) = digits 0 (b ∷ bs) in if is_empty rest && ltb n 65536 then some n else none

unfoldable pub default_port_for_scheme : Bytes → ℕ
default_port_for_scheme scheme =
    if equals scheme (codes "tls") || equals scheme (codes "quic") || equals scheme (codes "h3")
    then 853
    else if equals scheme (codes "udp") || equals scheme (codes "tcp")
    then 53
    else 443
  where
    equals : Bytes → Bytes → Bool
    equals a b = elim (bytes_discrete a b) [ yes p ↦ true | no p ↦ false ]

module _ (net : NetLibrary) where
  -- the host and the port's text
  unfoldable pub host_and_port : Bytes → Bytes × Bytes
  unfolding split_colon
  host_and_port rest = elim (net.split_host_port rest) [
    | some p ↦ p
    | none ↦ elim (split_colon rest) [
      | none ↦ (rest, [])
      | some p ↦ if only_colon p then p else (rest, [])
    ]
  ]

  unfoldable pub target_of : Bytes → Bytes × Bytes → Option UpstreamTarget
  unfolding trim_left trim_right parse_uint16 default_port_for_scheme
  target_of scheme (host, port_text) =
      let name = trim_left (trim_right host) in
      if is_empty name
      then none
      else if net.parses_addr name
      then none
      else some (record {
        host = name;
        port = elim (parse_uint16 port_text) [ none ↦ default_port_for_scheme scheme | some n ↦ n ];
      })

  unfoldable pub target_from_addr : Bytes → Option UpstreamTarget
  unfolding split_scheme before_slash host_and_port target_of
  target_from_addr addr = elim (split_scheme addr) [
    | none ↦ target_of [] (host_and_port (before_slash addr))
    | some (scheme, rest) ↦ target_of scheme (host_and_port (before_slash rest))
  ]

  -- the loop over the addresses of one provider, with the targets seen so far by lower-case host
  unfoldable pub see_addrs :
      List (Bytes × Bytes) → List (Bytes × UpstreamTarget) → List (Bytes × UpstreamTarget)
  unfolding target_from_addr to_lower
  see_addrs [] seen = seen
  see_addrs ((mode, addr) ∷ modes) seen = see_addrs modes (elim (target_from_addr addr) [
    | none ↦ seen
    | some t ↦ insert bytes_discrete (map to_lower t.host) t seen
  ])

  unfoldable pub see_providers :
      List (Bytes × List (Bytes × Bytes))
      → List (Bytes × UpstreamTarget)
      → List (Bytes × UpstreamTarget)
  unfolding see_addrs
  see_providers [] seen = seen
  see_providers ((name, modes) ∷ dns) seen = see_providers dns (see_addrs modes seen)

  -- the loop over the static hosts
  unfoldable pub see_hosts :
      List (Bytes × List Bytes) → List (Bytes × UpstreamTarget) → List (Bytes × UpstreamTarget)
  unfolding to_lower
  see_hosts [] seen = seen
  see_hosts ((name, addrs) ∷ hosts) seen =
      see_hosts hosts (elim (lookup bytes_discrete (map to_lower name) seen) [
        | some t ↦ seen
        | none ↦
            insert bytes_discrete (map to_lower name)
              (record { host = map to_lower name; port = 443 }) seen
      ])

  module _ (slices : SliceSort UpstreamTarget) where
    abbrev sorted : List (Bytes × UpstreamTarget) → List UpstreamTarget
    sorted seen = slices.sort (λ a b. bytes_less a.host b.host) (map (λ p. p.1) seen)

    -- `UpstreamTargets`
    unfoldable pub upstream_targets : Config → List UpstreamTarget
    unfolding see_providers see_hosts bytes_less
    upstream_targets c = sorted (see_hosts c.hosts (see_providers c.dns []))

    -- `UpstreamTargetsFor`
    unfoldable pub upstream_targets_for : Config → Bytes → List UpstreamTarget
    unfolding see_addrs bytes_less
    upstream_targets_for c provider = sorted (elim (lookup bytes_discrete provider c.dns) [
      | none ↦ []
      | some modes ↦ see_addrs modes []
    ])
