-- ===== src/Config/Meaning.antt =====
-- What it means that a check finds no error.
use dnsproxy_router.Config.Valid.{IsKnown, IsNonempty, IsPort, IsPath, IsEcs}
use dnsproxy_router.Config.Checks.{
  check, first_error, port_error, path_error, host_error, ecs_error, cert_error, ttl_error,
  provider_error, weight_error, provider_modes_error, dns_error,
}
use dnsproxy_router.Config.{
  Named, Priority, EcsConfig, ListenerConfig, needs_tls, Config, ConfigError, NetLibrary, host_addr,
}
use mathlib.Core.List.{Perm, Mem, mem-cons_self, mem-cons_of_mem}
use mathlib.Core.List.Perm
use mathlib.Core.List.Perm.{mem_iff}
use dnsproxy_router.Prelude.Sort.{All-mem}
use dnsproxy_router.Prelude.{
  ℕ, ◌≡◌, ◌⊎◌, ◌↔◌, refl, Bool, true, false, not, Option, none, some, List, [], ◌∷◌, Bytes, All,
  arith,
}
use dnsproxy_router.Prelude.Int.{ℤ, pos, ◌≤ℤ◌}
use dnsproxy_router.Ecs.{new}

pub first_error-none {ℓ} :
    {A : Type ℓ} (f : A → Option ConfigError) (xs : List A)
    → (first_error f xs ≡ none) ↔ All (λ x. f x ≡ none) xs
unfolding first_error
first_error-none f [] = (λ h. tt, λ h. refl)
first_error-none f (x ∷ xs) = ground (arith, first_error-none f xs)

pub All-↔ {ℓ κ υ} :
    {A : Type ℓ} {P : A → Type κ} {Q : A → Type υ} (each : (a : A) → P a ↔ Q a) (xs : List A)
    → All P xs ↔ All Q xs
All-↔ each [] = (λ h. tt, λ h. tt)
All-↔ each (x ∷ xs) =
    let (to, from) = each x in
    let (all, back) = All-↔ each xs in (λ (h, k). (to h, all k), λ (h, k). (from h, back k))

abbrev is_nil : Option ConfigError → Bool
is_nil none = true
is_nil (some e) = false

is_nil-none : (e : Option ConfigError) → (is_nil e ≡ true) ↔ (e ≡ none)
is_nil-none e = (λ h. ground arith, λ h. ground arith)

All-of_mem {ℓ} :
    {A : Type ℓ} (p : A → Bool) (xs : List A)
    → ((a : A) → Mem a xs → p a ≡ true)
    → All (λ a. p a ≡ true) xs
All-of_mem p [] h = tt
All-of_mem p (x ∷ xs) h = (h x mem-cons_self, All-of_mem p xs (λ a m. h a (mem-cons_of_mem x m)))

-- The order in which the loop meets the elements does not matter for whether it finds an error.
pub first_error-Perm {ℓ} :
    {A : Type ℓ} (f : A → Option ConfigError) (xs ys : List A)
    → Perm xs ys
    → (first_error f xs ≡ none) ↔ (first_error f ys ≡ none)
first_error-Perm {A = A} f xs ys p = (one_way xs ys p, one_way ys xs (Perm.symm p))
  where
    one_way : (xs ys : List A) → Perm xs ys → first_error f xs ≡ none → first_error f ys ≡ none
    one_way xs ys p h =
        let each = (All-↔ (λ a. is_nil-none (f a)) xs).1 ((first_error-none f xs).0 h) in
        let there =
          All-of_mem (λ a. is_nil (f a)) ys
            (λ a m. All-mem (λ a. is_nil (f a)) true xs each a ((mem_iff p).1 m)) in
        (first_error-none f ys).1 ((All-↔ (λ a. is_nil-none (f a)) ys).0 there)

pub port_error-IsPort :
    (p : Bytes × ListenerConfig) → (pos 1 ≤ℤ p.1.port) → (port_error p ≡ none) ↔ IsPort p.1
unfolding port_error
port_error-IsPort (name, l) h = (λ k. ground arith, λ k. ground arith)

module _ (net : NetLibrary) where
  pub path_error-IsPath :
      (b : ℕ) (bs : Bytes) → (path_error net (b ∷ bs) ≡ none) ↔ IsPath net.parses_uri (b ∷ bs)
  unfolding path_error
  path_error-IsPath b [] = (λ k. ground arith, λ k. ground arith)
  path_error-IsPath b (d ∷ bs) = (λ k. ground arith, λ k. ground arith)

  pub ecs_error-IsEcs : (e : EcsConfig) → (ecs_error net e ≡ none) ↔ IsEcs net e
  unfolding ecs_error new
  ecs_error-IsEcs e = (λ k. ground arith, λ k. ground arith)

  parses-check :
      (name a : Bytes)
      → (check (not (net.parses_addr a)) (host_addr name a) ≡ none) ↔ (net.parses_addr a ≡ true)
  parses-check name a = (λ k. ground arith, λ k. ground arith)

  pub host_error-none :
      (h : Bytes × List Bytes)
      → (host_error net h ≡ none)
        ↔ (IsNonempty h.0 × IsNonempty h.1 × All (λ a. net.parses_addr a ≡ true) h.1)
  unfolding host_error first_error
  host_error-none (name, addrs) =
      let (to, from) =
        first_error-none (λ a. check (not (net.parses_addr a)) (host_addr name a)) addrs in
      let (all, back) = All-↔ (parses-check name) addrs in ground (arith, to, from, all, back)

pub cert_error-none :
    (c : Config)
    → (cert_error c ≡ none) ↔ (
        ((c.listeners.doh.enabled ≡ false)
          × (c.listeners.dot.enabled ≡ false)
          × (c.listeners.doq.enabled ≡ false))
        ⊎ (IsNonempty c.cert.cert_path × IsNonempty c.cert.key_path × IsKnown c.cert.mode))
unfolding cert_error needs_tls
cert_error-none c = (λ k. ground arith, λ k. ground arith)

pub ttl_error-none :
    (c : Config)
    → (ttl_error c ≡ none) ↔ (
        (pos 0 ≤ℤ c.ttl_min)
        × (pos 0 ≤ℤ c.ttl_max)
        × ((c.ttl_max ≡ pos 0) ⊎ (c.ttl_min ≤ℤ c.ttl_max)))
unfolding ttl_error
ttl_error-none c = (λ k. ground arith, λ k. ground arith)

pub provider_error-none :
    (p : Bytes × Named Priority) → (provider_error p ≡ none) ↔ (IsNonempty p.0 × IsKnown p.1)
unfolding provider_error
provider_error-none (name, prio) = (λ k. ground arith, λ k. ground arith)

pub weight_error-none :
    (w : Bytes × ℤ) → (weight_error w ≡ none) ↔ (IsNonempty w.0 × (pos 1 ≤ℤ w.1) × (w.1 ≤ℤ pos 100))
unfolding weight_error
weight_error-none ([], w) = (λ k. ground arith, λ k. ground arith)
weight_error-none (b ∷ bs, w) = (λ k. ground arith, λ k. ground arith)

pub provider_modes_error-none :
    (p : Bytes × List (Bytes × Bytes))
    → (provider_modes_error p ≡ none) ↔ (IsNonempty p.0 × IsNonempty p.1)
unfolding provider_modes_error
provider_modes_error-none (name, modes) = (λ k. ground arith, λ k. ground arith)

pub dns_error-none :
    (c : Config)
    → (dns_error c ≡ none) ↔ (IsNonempty c.dns × All (λ p. IsNonempty p.0 × IsNonempty p.1) c.dns)
unfolding dns_error first_error
dns_error-none c =
    let (to, from) = first_error-none provider_modes_error c.dns in
    let (all, back) = All-↔ provider_modes_error-none c.dns in ground (arith, to, from, all, back)
