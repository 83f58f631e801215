-- ===== src/Bootstrap/Hosts.antt =====
-- The static host table: which configured name answers for a host.
use dnsproxy_router.Prelude.{◌≡◌, true, not}
use dnsproxy_router.Afp.{Addr, Network, ip, ip4, ip6}

abbrev pub IsOf : Network → Addr → Type 0
IsOf ip a = Unit
IsOf ip4 a = not a.is6 ≡ true
IsOf ip6 a = a.is6 ≡ true
