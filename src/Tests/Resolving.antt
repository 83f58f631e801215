-- ===== src/Tests/Resolving.antt =====
-- The bootstrap resolvers on concrete inputs.
use dnsproxy_router.Prelude.{
  insert, ◌≡◌, refl, true, false, none, some, List, [], ◌∷◌, Any, Bytes, ℕ, lookup, bytes_discrete,
  ℕ_discrete,
}
use dnsproxy_router.Prelude.Int.{pos, ◌+ℤ◌}
use dnsproxy_router.Afp.{Addr, ip, Lookup}
use dnsproxy_router.Bootstrap.{new_cache, cache_hit, cache_store}
use dnsproxy_router.Bootstrap.Fresh.{Asked, filled, AnsweredBy, cache_hit-fresh}

abbrev four : Addr
four = record { is6 = false; bytes = 1 ∷ 1 ∷ 1 ∷ 1 ∷ [] }

abbrev six : Addr
six = record { is6 = true; bytes = 2 ∷ [] }

abbrev asked : Bytes
asked = b'A' ∷ b'.' ∷ []

abbrev configured : Bytes
configured = b'a' ∷ []

abbrev nothing : Lookup ℕ
nothing = record { addrs = []; err = some 1 }

abbrev answered : Lookup ℕ
answered = record { addrs = four ∷ []; err = none }

abbrev log : List (Asked ℕ)
log = record { now = pos 10; network = ip; host = configured; answer = answered } ∷ []

hit : cache_hit (filled (new_cache (pos 100)) log) (pos 50) ip configured ≡ some (four ∷ [])
unfolding cache_hit filled new_cache cache_store ◌+ℤ◌ lookup bytes_discrete ℕ_discrete insert
hit = refl

cache_hit-fresh_example :
    Any (AnsweredBy (new_cache (pos 100)).ttl (pos 50) ip configured (four ∷ [])) log
cache_hit-fresh_example = cache_hit-fresh (pos 100) log (pos 50) ip configured (four ∷ []) hit
