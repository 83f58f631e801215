-- ===== src/Ecs.antt =====
-- internal/ecs/ecs.go: the treatment of the EDNS Client Subnet on the way to the upstreams. Parsing a
-- prefix (net/netip) is a parameter: the text either gives the family, the masked address and the
-- length, or an error.
pub mod Options
use dnsproxy_router.Prelude.{
  ℕ, Bool, true, false, Option, none, some, List, [], ◌∷◌, ◌++◌, Bytes, ◌==◌, if◌then◌else◌,
  get_elem?, set, filterb, not,
}
use dnsproxy_router.Dns.{EdnsOption, subnet, other_option, Rr, Msg, DnsLibrary, type_opt}

-- A masked prefix; `is4` is `Addr.Is4`.
pub record Prefix : Type 0 where
  pub is4 : Bool
  pub address : Bytes
  pub bits : ℕ

pub data Mode : Type 0 where
  off pass override : Mode
  unknown : Bytes → Mode

pub record EcsPolicy : Type 0 where
  pub mode : Mode
  pub prefix : Option Prefix

pub data EcsError : Type 0 where
  bad_address bad_mode : EcsError

pub data EcsResult : Type 0 where
  ok : EcsPolicy → EcsResult
  err : EcsError → EcsResult

-- `New`; `parse` is `netip.ParsePrefix` followed by `Masked`
unfoldable pub new : (Bytes → Option Prefix) → Mode → Bytes → EcsResult
new parse off address = ok (record { mode = off; prefix = none })
new parse pass address = ok (record { mode = pass; prefix = none })
new parse override address = elim (parse address) [
  | none ↦ err bad_address
  | some p ↦ ok (record { mode = override; prefix = some p })
]
new parse (unknown text) address = err bad_mode

abbrev pub is_opt : Rr → Bool
is_opt rr = rr.rrtype == type_opt

unfoldable pub strip_opt : Msg → Msg
strip_opt m = record m { extra = filterb (λ rr. not (is_opt rr)) m.extra }

abbrev pub is_subnet : EdnsOption → Bool
is_subnet (subnet family netmask scope address) = true
is_subnet (other_option code body) = false

-- the option that `setECSOverride` builds
unfoldable pub subnet_of : Prefix → EdnsOption
subnet_of p = subnet (if p.is4 then 1 else 2) p.bits 0 p.address

-- the OPT record that `setECSOverride` adds: only its name and its type are set
abbrev pub bare_opt : Rr
bare_opt = record { name = b'.' ∷ []; rrtype = type_opt; ttl = 0; options = []; body = [] }

unfoldable pub override_options : Prefix → Rr → Rr
unfolding subnet_of
override_options p o = record o {
  options = filterb (λ x. not (is_subnet x)) o.options ++ subnet_of p ∷ [];
}

-- a write through the pointer to the record at the position
unfoldable pub update_at : (Rr → Rr) → ℕ → List Rr → List Rr
update_at f i rrs = elim (get_elem? rrs i) [ none ↦ rrs | some o ↦ set rrs i (f o) ]

module _ (lib : DnsLibrary) where
  unfoldable pub set_ecs_override : Prefix → Msg → Msg
  unfolding override_options update_at
  set_ecs_override p m = elim (lib.is_edns0 m) [
    | none ↦ record m { extra = m.extra ++ override_options p bare_opt ∷ [] }
    | some i ↦ record m { extra = update_at (override_options p) i m.extra }
  ]

  -- `Apply`; an `override` policy of `New` has a prefix
  unfoldable pub apply : EcsPolicy → Msg → Msg
  unfolding strip_opt set_ecs_override
  apply e m = elim e.mode [
    | off ↦ strip_opt m
    | override ↦ elim e.prefix [ none ↦ m | some p ↦ set_ecs_override p m ]
    | _ ↦ m
  ]
