-- ===== src/Config/Duration/Exact.antt =====
-- Durations with days are exact, or refused: no wrap-around is returned.
use dnsproxy_router.Config.Duration.{
  ℤ, half, day, mul_int64, add_int64, div_int64, match_days, DurationError, day_duration, days_back,
  from_days, parse_duration, too_many_days, negative, parsed, failed,
}
use dnsproxy_router.Prelude.{
  dec_lt, [], ◌∷◌, Bytes, Option, none, some, ◌⊎◌, inl, inr, ℕ, ◌+◌, ◌*◌, ◌≤◌, ◌<◌, ◌≡◌, ◌≢◌, true,
  arith,
}
use dnsproxy_router.Prelude.Int.{pos, ◌+ℤ◌, ltb_ℤ}

day_fits : (n : ℕ) → n * day < half → day_duration n ≡ pos (n * day)
unfolding day_duration mul_int64
day_fits n h = ground arith

back_fits : (n : ℕ) → n * day < half → days_back (pos (n * day)) ≡ pos n
unfolding days_back div_int64
back_fits n h = ground arith

-- Beyond the range, the check of the code does not find the days again.
back_differs : (n : ℕ) → n < half → half ≤ n * day → days_back (day_duration n) ≢ pos n
unfolding days_back day_duration mul_int64 div_int64
back_differs n small h = λ e. ground arith

add_fits : (a b : ℕ) → a + b < half → add_int64 (pos a) (pos b) ≡ pos (a + b)
unfolding add_int64 ◌+ℤ◌
add_fits a b h = ground arith

add_wraps :
    (a b : ℕ)
    → a < half
    → b < half
    → half ≤ a + b
    → ltb_ℤ (add_int64 (pos a) (pos b)) (pos 0) ≡ true
unfolding add_int64 ◌+ℤ◌
add_wraps a b h k l = ground arith

-- What the rest of a text after its days is worth: nothing, or what the library reads.
abbrev pub IsWorth : (Bytes → Option ℤ) → Bytes → ℕ → Type 0
IsWorth parse [] t = t ≡ 0
IsWorth parse (b ∷ bs) t = parse (b ∷ bs) ≡ some (pos t)

module _ (parse : Bytes → Option ℤ) (n t : ℕ) (h : t < half) where
  fits :
      (rest : Bytes)
      → IsWorth parse rest t
      → n * day + t < half
      → from_days parse n rest ≡ parsed (pos (n * day + t))
  unfolding from_days
  fits [] w k = rw (day_fits n (omega arith), back_fits n (omega arith)) (ground arith)
  fits (b ∷ bs) w k =
      rw (w, day_fits n (omega arith), back_fits n (omega arith), add_fits (n * day) t k)
        (ground arith)

  sum_refused :
      (rest : Bytes)
      → IsWorth parse rest t
      → n * day < half
      → half ≤ n * day + t
      → (e : DurationError) × (from_days parse n rest ≡ failed e)
  unfolding from_days
  sum_refused [] w k l = absurd (omega arith)
  sum_refused (b ∷ bs) w k l =
      (negative, rw (w, day_fits n k, back_fits n k, add_wraps (n * day) t k h l) (ground arith))

  refused_of :
      (rest : Bytes)
      → IsWorth parse rest t
      → half ≤ n * day + t
      → (e : DurationError) × (from_days parse n rest ≡ failed e)
  unfolding from_days
  refused_of rest w k = elim (dec_lt (n * day) half) [
    | no big ↦ (too_many_days, ground (arith, back_differs n))
    | yes k' ↦ sum_refused rest w k' k
  ]

  -- Where the library does not read the text itself, and the text is a number of days and a rest
  -- that the library reads as no negative duration, the result is exactly the sum if that is an
  -- `int64`, and an error if it is not.
  pub parse_duration-exact :
      (s rest : Bytes)
      → parse s ≡ none
      → match_days s ≡ some (n, rest)
      → IsWorth parse rest t
      → ((n * day + t < half) × (parse_duration parse s ≡ parsed (pos (n * day + t))))
        ⊎ ((half ≤ n * day + t) × ((e : DurationError) × (parse_duration parse s ≡ failed e)))
  unfolding parse_duration
  parse_duration-exact s rest a b w = elim (dec_lt (n * day + t) half) [
    | yes k ↦ inl (k, rw (parse_duration, a, b) (fits rest w k))
    | no k ↦
        let (e, r) = refused_of rest w (omega arith) in
        inr (omega arith, (e, rw (parse_duration, a, b) r))
  ]
