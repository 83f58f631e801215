-- ===== src/Ecs/Options.antt =====
-- What `Apply` leaves of a request's EDNS data.
use mathlib.Core.List.{append-nil}
use dnsproxy_router.Prelude.{
  sym, get_elem?-set_ne, get_elem?-snoc, ◌≢◌, zero, suc, Bool, true, false, Bytes, if◌then◌else◌,
  arith, ℕ, ◌≡◌, refl, ap, ◌∙◌, true, not, none, some, List, [], ◌∷◌, ◌++◌, All, filterb,
  filterb-All, get_elem?, length, Option-cases, inl, inr, ◌⊎◌, get_elem?-set_self, lt_of_get_elem?,
}
use dnsproxy_router.Dns.{EdnsOption, subnet, other_option, Rr, Msg, DnsLibrary, type_opt}
use dnsproxy_router.Ecs.{
  EcsPolicy, off, override, Prefix, is_opt, is_subnet, strip_opt, subnet_of, bare_opt,
  override_options, update_at, set_ecs_override, apply,
}

-- Without its client subnets.
abbrev pub others : List EdnsOption → List EdnsOption
others = filterb (λ x. not (is_subnet x))

abbrev pub subnets : List EdnsOption → List EdnsOption
subnets = filterb is_subnet

subnets-append : (xs ys : List EdnsOption) → subnets (xs ++ ys) ≡ subnets xs ++ subnets ys
subnets-append [] ys = refl
subnets-append (subnet f n s a ∷ xs) ys = ap (◌∷◌ (subnet f n s a)) (subnets-append xs ys)
subnets-append (other_option c b ∷ xs) ys = subnets-append xs ys

subnets-others : (xs : List EdnsOption) → subnets (others xs) ≡ []
subnets-others [] = refl
subnets-others (subnet f n s a ∷ xs) = subnets-others xs
subnets-others (other_option c b ∷ xs) = subnets-others xs

others-append : (xs ys : List EdnsOption) → others (xs ++ ys) ≡ others xs ++ others ys
others-append [] ys = refl
others-append (subnet f n s a ∷ xs) ys = others-append xs ys
others-append (other_option c b ∷ xs) ys = ap (◌∷◌ (other_option c b)) (others-append xs ys)

others-others : (xs : List EdnsOption) → others (others xs) ≡ others xs
others-others [] = refl
others-others (subnet f n s a ∷ xs) = others-others xs
others-others (other_option c b ∷ xs) = ap (◌∷◌ (other_option c b)) (others-others xs)

-- The override leaves one client subnet, the configured one, and the other options as they were.
pub override_options-subnets :
    (p : Prefix) (o : Rr)
    → (subnets (override_options p o).options ≡ subnet_of p ∷ [])
      × (others (override_options p o).options ≡ others o.options)
unfolding override_options subnet_of
override_options-subnets p o = (
  subnets-append (others o.options) (subnet_of p ∷ [])
      ∙ ap (λ xs. xs ++ subnet_of p ∷ []) (subnets-others o.options),
  others-append (others o.options) (subnet_of p ∷ [])
      ∙ ap (λ xs. xs ++ []) (others-others o.options)
      ∙ append-nil (others o.options),
)

-- With ECS off the request has no OPT record, and its other additional records are those it had,
-- in their order.
pub apply-off :
    (lib : DnsLibrary) (e : EcsPolicy) (m : Msg)
    → e.mode ≡ off
    → All (λ rr. not (is_opt rr) ≡ true) (apply lib e m).extra
      × ((apply lib e m).extra ≡ filterb (λ rr. not (is_opt rr)) m.extra)
unfolding apply strip_opt
apply-off lib e m h = rw (h, apply) (filterb-All (λ rr. not (is_opt rr)) m.extra, refl)

-- The option for a prefix: the family is 1 for IPv4 and 2 for IPv6, the source netmask is the
-- prefix's length, the scope is 0.
pub data IsSubnetFor : Prefix → EdnsOption → Type 0 where
  for_ipv4 :
      (address : Bytes) (bits : ℕ)
      → IsSubnetFor
          (record { is4 = true; address = address; bits = bits })
          (subnet 1 bits 0 address)
  for_ipv6 :
      (address : Bytes) (bits : ℕ)
      → IsSubnetFor
          (record { is4 = false; address = address; bits = bits })
          (subnet 2 bits 0 address)

subnet_of-IsSubnetFor : (p : Prefix) → IsSubnetFor p (subnet_of p)
unfolding subnet_of
subnet_of-IsSubnetFor p = by_family p.is4 p.address p.bits
  where
    by_family :
        (is4 : Bool) (address : Bytes) (bits : ℕ)
        → IsSubnetFor
            (record { is4 = is4; address = address; bits = bits })
            (subnet (if is4 then 1 else 2) bits 0 address)
    by_family true address bits = for_ipv4 address bits
    by_family false address bits = for_ipv6 address bits

-- A record of which only the options differ, and those in the client subnets.
pub record Keeps (old new : Rr) : Type 0 where
  pub name : new.name ≡ old.name
  pub rrtype : new.rrtype ≡ old.rrtype
  pub ttl : new.ttl ≡ old.ttl
  pub body : new.body ≡ old.body
  pub options : others new.options ≡ others old.options

-- The rest of the message stays.
pub record SameRest (old new : Msg) (i : ℕ) : Type 0 where
  pub question : new.question ≡ old.question
  pub answer : new.answer ≡ old.answer
  pub ns : new.ns ≡ old.ns
  pub rcode : new.rcode ≡ old.rcode
  pub truncated : new.truncated ≡ old.truncated
  pub id : new.id ≡ old.id
  pub extra : (j : ℕ) → j ≢ i → get_elem? new.extra j ≡ get_elem? old.extra j

get_elem?-snoc_ne :
    (xs : List Rr) (x : Rr) (j : ℕ) → j ≢ length xs → get_elem? (xs ++ x ∷ []) j ≡ get_elem? xs j
get_elem?-snoc_ne [] x zero h = absurd (h refl)
get_elem?-snoc_ne [] x (suc j) h = refl
get_elem?-snoc_ne (y ∷ xs) x zero h = refl
get_elem?-snoc_ne (y ∷ xs) x (suc j) h = get_elem?-snoc_ne xs x j (λ e. h (omega arith))

module _ (lib : DnsLibrary) (e : EcsPolicy) (p : Prefix) (m : Msg) where
  -- In override mode the request has an OPT record whose only client subnet is the one of the
  -- configured prefix: family 1 or 2, the prefix's length, scope 0 and its address. It stands where
  -- the library found the request's OPT record, and keeps that record's other options, name, TTL
  -- field and data; if there was none, it is a new last record with the name of the root, without
  -- other options, TTL flags and data. The rest of the request stays as it was.
  pub apply-override :
      e.mode ≡ override
      → e.prefix ≡ some p
      → (i : ℕ) × (o : Rr) × (s : EdnsOption) × (get_elem? (apply lib e m).extra i ≡ some o)
        × (o.rrtype ≡ type_opt)
        × (subnets o.options ≡ s ∷ [])
        × IsSubnetFor p s
        × SameRest m (apply lib e m) i
        × (((lib.is_edns0 m ≡ none)
              × (i ≡ length m.extra)
              × (o ≡ record {
                name = b'.' ∷ [];
                rrtype = type_opt;
                ttl = 0;
                options = s ∷ [];
                body = [];
              }))
            ⊎ ((lib.is_edns0 m ≡ some i)
                × ((old : Rr) × (get_elem? m.extra i ≡ some old) × Keeps old o)))
  unfolding apply set_ecs_override update_at override_options
  apply-override mode prefix = elim (Option-cases (lib.is_edns0 m)) [
    | inl none_found ↦
        let o = override_options p bare_opt in
        rw (mode, prefix, none_found, apply, set_ecs_override)
          (
            length m.extra,
            o,
            subnet_of p,
            get_elem?-snoc m.extra o,
            refl,
            (override_options-subnets p bare_opt).0,
            subnet_of-IsSubnetFor p,
            record {
              question = refl;
              answer = refl;
              ns = refl;
              rcode = refl;
              truncated = refl;
              id = refl;
              extra = λ j h. get_elem?-snoc_ne m.extra o j h;
            },
            inl (refl, refl, refl),
          )
    | inr (i, found) ↦
        let (old, at, type) = lib.is_edns0_some m i found in
        let o = override_options p old in
        rw (mode, prefix, found, at, apply, set_ecs_override, update_at)
          (
            i,
            o,
            subnet_of p,
            get_elem?-set_self m.extra i o (lt_of_get_elem? m.extra i old at),
            type,
            (override_options-subnets p old).0,
            subnet_of-IsSubnetFor p,
            record {
              question = refl;
              answer = refl;
              ns = refl;
              rcode = refl;
              truncated = refl;
              id = refl;
              extra = λ j h. get_elem?-set_ne m.extra i j o (λ e. h (sym e));
            },
            inr (
              refl,
              (
                old,
                at,
                record {
                  name = refl;
                  rrtype = refl;
                  ttl = refl;
                  body = refl;
                  options = (override_options-subnets p old).1;
                },
              ),
            ),
          )
  ]
