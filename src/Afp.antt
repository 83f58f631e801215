-- ===== src/Afp.antt =====
-- internal/afp: the choice of the address family. What the prober's resolver and its connection
-- attempts give are arguments.
pub mod Choice
pub mod Prober
use dnsproxy_router.Prelude.{
  ℕ, suc, ◌+◌, ◌*◌, Bool, true, false, not, ◌&&◌, ◌||◌, Option, none, some, List, [], ◌∷◌, leb,
  ◌==◌, if◌then◌else◌, filterb, Bytes,
}

-- An address of net/netip.
pub record Addr : Type 0 where
  pub is6 : Bool
  pub bytes : Bytes

-- `Family`: false is IPv4, true is IPv6
abbrev pub Family : Type 0
Family = Bool

abbrev pub ipv4 : Family
ipv4 = false

abbrev pub ipv6 : Family
ipv6 = true

abbrev pub family_of : Addr → Family
family_of a = a.is6

abbrev pub same_family : Family → Family → Bool
same_family true f = f
same_family false f = not f

-- `preferFamily`
unfoldable pub prefer_family : List Addr → Family → List Addr
prefer_family addrs prefer =
    let keep = filterb (λ a. same_family (family_of a) prefer) addrs in
    elim keep [ [] ↦ addrs | a ∷ rest ↦ a ∷ rest ]

pub data Network : Type 0 where
  ip ip4 ip6 : Network

pub record Lookup (E : Type 0) : Type 0 where
  pub addrs : List Addr
  pub err : Option E

-- `Selector.LookupNetIP`; `inner` is what the wrapped resolver returns, `prober` the family that a
-- prober prefers
module _ {E : Type 0} where
  unfoldable pub select : Family → Option Family → Network → Lookup E → Lookup E
  unfolding prefer_family
  select prefer prober network inner =
      let chosen : Family = elim prober [ none ↦ prefer | some f ↦ f ] in
      let filtered : Lookup E = record inner { addrs = prefer_family inner.addrs chosen } in
      elim inner.err [
        | some e ↦ inner
        | none ↦ elim network [ ip ↦ filtered | ip4 ↦ inner | ip6 ↦ inner ]
      ]

-- A measured address: its family, and the time of the connection if it succeeded.
pub record Measured : Type 0 where
  pub is6 : Bool
  pub rtt : Option ℕ

pub record Tally : Type 0 where
  pub v4_count : ℕ
  pub v4_total : ℕ
  pub v6_count : ℕ
  pub v6_total : ℕ

abbrev no_tally : Tally
no_tally = record { v4_count = 0; v4_total = 0; v6_count = 0; v6_total = 0 }

-- the critical section of a probing goroutine, by the address's family
unfoldable pub count : Bool → ℕ → Tally → Tally
count true rtt t = record t { v6_count = suc t.v6_count; v6_total = t.v6_total + rtt }
count false rtt t = record t { v4_count = suc t.v4_count; v4_total = t.v4_total + rtt }

unfoldable pub tally_one : Measured → Tally → Tally
unfolding count
tally_one m t = elim m.rtt [ none ↦ t | some rtt ↦ count m.is6 rtt t ]

-- the measurements in the order in which they are counted
unfoldable pub tally : List Measured → Tally → Tally
unfolding tally_one
tally [] t = t
tally (m ∷ ms) t = tally ms (tally_one m t)

-- the end of `probe`, on the exact averages: the new preference
unfoldable pub choose : Family → Tally → Family
choose current t =
    if t.v4_count == 0 && t.v6_count == 0
    then current
    else if t.v6_count == 0
    then ipv4
    else if t.v4_count == 0
    then ipv6
    else if leb (t.v4_total * t.v6_count) (t.v6_total * t.v4_count)
    then ipv4
    else ipv6

unfoldable pub probe : Family → List Measured → Family
unfolding tally choose
probe current ms = choose current (tally ms no_tally)
