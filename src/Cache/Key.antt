-- ===== src/Cache/Key.antt =====
-- internal/cache/cache.go, Key and keyOf: the key under which a request is cached.
use dnsproxy_router.Prelude.{
  ℕ, zero, suc, ◌+◌, ◌/◌, ◌%◌, ◌&&◌, Option, none, some, List, [], ◌∷◌, ◌++◌, map, ltb, leb,
  if◌then◌else◌, get_elem?, Bytes,
}
use dnsproxy_router.Dns.{EdnsOption, subnet, other_option, Question, Msg, DnsLibrary}

-- `strings.ToLower` on ASCII
unfoldable pub to_lower : ℕ → ℕ
to_lower c = if leb b'A' c && leb c b'Z' then c + 32 else c

-- `strconv.Itoa` of a number: its decimal digits, with as many rounds as the number has digits
unfoldable pub digits_from : ℕ → ℕ → Bytes → Bytes
digits_from zero n rest = rest
digits_from (suc rounds) n rest =
    let d = (b'0' + n % 10) ∷ rest in
    let more = digits_from rounds (n / 10) d in if ltb n 10 then d else more

-- A `uint16` has five digits at most.
unfoldable pub itoa : ℕ → Bytes
unfolding digits_from
itoa n = digits_from 5 n []

unfoldable pub options_key : List EdnsOption → Bytes
unfolding itoa
options_key [] = []
options_key (subnet family netmask scope address ∷ os) =
    b'|' ∷ (itoa family ++ b'/' ∷ (itoa netmask ++ b'/' ∷ (address ++ options_key os)))
options_key (other_option code body ∷ os) = options_key os

module _ (lib : DnsLibrary) where
  unfoldable pub edns_key : Msg → Bytes
  unfolding options_key
  edns_key m = elim (lib.is_edns0 m) [
    | none ↦ []
    | some i ↦ elim (get_elem? m.extra i) [
      | none ↦ []
      | some o ↦ (if lib.do_bit o then b'|' ∷ b'D' ∷ [] else []) ++ options_key o.options
    ]
  ]

  -- `keyOf` of a message whose one question is `q`
  unfoldable pub key_of : Question → Msg → Bytes
  unfolding to_lower itoa edns_key
  key_of q m = map to_lower q.name ++ b'|' ∷ (itoa q.qtype ++ b'|' ∷ (itoa q.qclass ++ edns_key m))

  -- `Key`; `none` is the empty text, which no key is
  unfoldable pub key : Msg → Option Bytes
  unfolding key_of
  key m = elim m.question [ [] ↦ none | q ∷ [] ↦ some (key_of q m) | q ∷ q' ∷ qs ↦ none ]
