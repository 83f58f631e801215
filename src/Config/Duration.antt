-- ===== src/Config/Duration.antt =====
-- internal/config/config.go, ParseDuration: Go's durations with days. A number is an `int64`, whose
-- products and sums wrap around. `time.ParseDuration` is a parameter.
pub mod Exact
use dnsproxy_router.Prelude.{
  ℕ, zero, suc, ◌+◌, ◌-◌, ◌*◌, ◌/◌, ◌%◌, Bool, true, false, not, ◌&&◌, ◌||◌, ◌==◌, Option, none,
  some, List, [], ◌∷◌, Bytes, if◌then◌else◌, ltb, leb,
}
use dnsproxy_router.Prelude.Int.{ℤ, pos, negsuc, ◌+ℤ◌, leb_ℤ, ltb_ℤ}

abbrev pub modulus : ℕ
modulus = 18446744073709551616

abbrev pub half : ℕ
half = 9223372036854775808

abbrev pub day : ℕ
day = 86400000000000

abbrev pub hour : ℕ
hour = 3600000000000

-- the `int64` with a bit pattern below 2 ^ 64
abbrev pub signed : ℕ → ℤ
signed bits = if ltb bits half then pos bits else negsuc (modulus - suc bits)

-- the bit pattern of an integer
abbrev pub bits_of : ℤ → ℕ
bits_of (pos n) = n % modulus
bits_of (negsuc n) = modulus - 1 - n % modulus

-- `a * k` and `a + b` on `int64`
unfoldable pub mul_int64 : ℤ → ℕ → ℤ
mul_int64 (pos n) k = signed (n * k % modulus)
mul_int64 (negsuc n) k = signed ((modulus - suc n * k % modulus) % modulus)

unfoldable pub add_int64 : ℤ → ℤ → ℤ
add_int64 a b = signed (bits_of (a +ℤ b))

-- `a / k`, towards zero
unfoldable pub div_int64 : ℤ → ℕ → ℤ
div_int64 (pos n) k = pos (n / k)
div_int64 (negsuc n) k = negated (suc n / k)
  where
    negated : ℕ → ℤ
    negated zero = pos 0
    negated (suc m) = negsuc m

abbrev pub is_digit : ℕ → Bool
is_digit b = leb b'0' b && leb b b'9'

-- The digits at the front of a text, as a number, and what follows them: `none` without a digit.
-- `strconv.ParseInt` refuses a number that is no `int64`.
unfoldable pub digits : ℕ → Bytes → ℕ × Bytes
digits n [] = (n, [])
digits n (b ∷ bs) =
    let rest = digits (n * 10 + (b - b'0')) bs in if is_digit b then rest else (n, b ∷ bs)

unfoldable pub has_newline : Bytes → Bool
has_newline [] = false
has_newline (b ∷ bs) = b == 10 || has_newline bs

-- the second group of `dayRE`: empty, or from a digit on, without a line break
abbrev pub is_rest : Bytes → Bool
is_rest [] = true
is_rest (b ∷ bs) = is_digit b && not (has_newline bs)

-- `dayRE`: the days and the rest
unfoldable pub match_days : Bytes → Option (ℕ × Bytes)
unfolding digits has_newline
match_days [] = none
match_days (b ∷ bs) = if is_digit b then after_digits (digits 0 (b ∷ bs)) else none
  where
    after_digits : ℕ × Bytes → Option (ℕ × Bytes)
    after_digits (n, []) = none
    after_digits (n, c ∷ rest) = if c == b'd' && is_rest rest then some (n, rest) else none

pub data DurationError : Type 0 where
  no_duration too_many_days bad_rest negative : DurationError

pub data Parsed : Type 0 where
  parsed : ℤ → Parsed
  failed : DurationError → Parsed

-- `time.Duration(days) * 24 * time.Hour`
unfoldable pub day_duration : ℕ → ℤ
unfolding mul_int64
day_duration days = mul_int64 (mul_int64 (pos days) 24) hour

-- `dayDur/24/time.Hour`
unfoldable pub days_back : ℤ → ℤ
unfolding div_int64
days_back d = div_int64 (div_int64 d 24) hour

abbrev pub eq_ℤ : ℤ → ℤ → Bool
eq_ℤ a b = leb_ℤ a b && leb_ℤ b a

module _ (parse : Bytes → Option ℤ) where
  -- from the days on, which `strconv.ParseInt` has read
  unfoldable pub from_days : ℕ → Bytes → Parsed
  from_days days rest =
      if not (ltb days half)
      then failed too_many_days
      else if not (eq_ℤ (days_back (day_duration days)) (pos days))
      then failed too_many_days
      else elim rest [
        | [] ↦ parsed (day_duration days)
        | b ∷ bs ↦ elim (parse (b ∷ bs)) [
          | none ↦ failed bad_rest
          | some r ↦
              if ltb_ℤ (add_int64 (day_duration days) r) (pos 0)
              then failed negative
              else parsed (add_int64 (day_duration days) r)
        ]
      ]

  unfoldable pub parse_duration : Bytes → Parsed
  unfolding match_days from_days
  parse_duration s = elim (parse s) [
    | some d ↦ parsed d
    | none ↦ elim (match_days s) [
      | none ↦ failed no_duration
      | some (days, rest) ↦ from_days days rest
    ]
  ]
