-- ===== src/Config/Targets/RoundTrip.antt =====
-- The target of an address that is written out of a scheme, a host, a port and a path.
use dnsproxy_router.Config.Targets.{
  after_mark, split_scheme, before_slash, is_bracket, cons_unless_bracket, trim_right, trim_left,
  parse_uint16, host_and_port, target_of, target_from_addr,
}
use dnsproxy_router.Config.{NetLibrary}
use dnsproxy_router.Prelude.{ℕ, ◌≡◌, ◌≢◌, refl, false, none, some, [], ◌∷◌, ◌++◌, Bytes, All, arith}

no_mark : (b : ℕ) (bs : Bytes) → b ≢ b':' → after_mark (b ∷ bs) ≡ none
no_mark b [] h = refl
no_mark b (c ∷ []) h = refl
no_mark b (c ∷ d ∷ bs) h = ground arith

-- A text without colons has no mark in it, so that the first mark is the one behind it.
split_scheme-mark :
    (scheme rest : Bytes)
    → All (λ b. b ≢ b':') scheme
    → split_scheme (scheme ++ b':' ∷ b'/' ∷ b'/' ∷ rest) ≡ some (scheme, rest)
unfolding split_scheme
split_scheme-mark [] rest h = refl
split_scheme-mark (b ∷ scheme) rest h =
    rw
      (
        split_scheme,
        no_mark b (scheme ++ b':' ∷ b'/' ∷ b'/' ∷ rest) h.0,
        split_scheme-mark scheme rest h.1,
      )
      refl

abbrev pub IsRooted : Bytes → Type 0
IsRooted [] = Unit
IsRooted (b ∷ bs) = b ≡ b'/'

before_slash-path :
    (text path : Bytes)
    → All (λ b. b ≢ b'/') text
    → IsRooted path
    → before_slash (text ++ path) ≡ text
unfolding before_slash
before_slash-path [] [] h r = refl
before_slash-path [] (b ∷ bs) h r = ground arith
before_slash-path (b ∷ text) path h r = ground (arith, before_slash-path text path h.1 r)

trim_right-kept : (text : Bytes) → All (λ b. is_bracket b ≡ false) text → trim_right text ≡ text
unfolding trim_right
trim_right-kept [] h = refl
trim_right-kept (b ∷ bs) h = rw (trim_right-kept bs h.1) (kept b bs h.0)
  where
    kept : (b : ℕ) (bs : Bytes) → is_bracket b ≡ false → cons_unless_bracket b bs ≡ b ∷ bs
    kept b [] f = rw f refl
    kept b (c ∷ cs) f = refl

trim_left-kept : (b : ℕ) (bs : Bytes) → is_bracket b ≡ false → trim_left (b ∷ bs) ≡ b ∷ bs
unfolding trim_left
trim_left-kept b bs f = rw (f, trim_left) refl

abbrev pub IsNamed : NetLibrary → Bytes → Type 0
IsNamed net [] = ⊥
IsNamed net (b ∷ bs) = All (λ c. is_bracket c ≡ false) (b ∷ bs) × (net.parses_addr (b ∷ bs) ≡ false)

target_of-named :
    (net : NetLibrary) (scheme host port_text : Bytes) (p : ℕ)
    → IsNamed net host
    → parse_uint16 port_text ≡ some p
    → target_of net scheme (host, port_text) ≡ some (record { host = host; port = p })
unfolding target_of
target_of-named net scheme [] port_text p h e = absurd h
target_of-named net scheme (b ∷ bs) port_text p (clean, name) e =
    rw (target_of, trim_right-kept (b ∷ bs) clean, trim_left-kept b bs clean.0, name, e) refl

-- Of an address that is a scheme without colons, `://`, a host and a port that the library splits,
-- and a path or nothing, where the host is a name, not an IP address, without slashes and brackets,
-- and the port is a number below 65536, the target is that host and that port.
pub target_from_addr-written :
    (net : NetLibrary) (scheme host port_text path : Bytes) (p : ℕ)
    → All (λ b. b ≢ b':') scheme
    → All (λ b. b ≢ b'/') (host ++ b':' ∷ port_text)
    → IsRooted path
    → IsNamed net host
    → parse_uint16 port_text ≡ some p
    → net.split_host_port (host ++ b':' ∷ port_text) ≡ some (host, port_text)
    → target_from_addr net (scheme ++ b':' ∷ b'/' ∷ b'/' ∷ ((host ++ b':' ∷ port_text) ++ path))
      ≡ some (record { host = host; port = p })
unfolding target_from_addr host_and_port
target_from_addr-written net scheme host port_text path p a b r n e d =
    rw
      (
        target_from_addr,
        split_scheme-mark scheme ((host ++ b':' ∷ port_text) ++ path) a,
        before_slash-path (host ++ b':' ∷ port_text) path b r,
        host_and_port,
        d,
      )
      (target_of-named net scheme host port_text p n e)
