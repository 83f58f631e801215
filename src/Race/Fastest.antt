-- ===== src/Race/Fastest.antt =====
-- `exchangeFastest`: the first success in the order of arrival, or the last error.
use dnsproxy_router.Prelude.{
  ℕ, zero, suc, ◌<◌, ◌≡◌, refl, true, false, Option, none, some, List, [], ◌∷◌, ◌++◌, arith, length,
  All,
}
use dnsproxy_router.Race.{Reply, RaceResult, succeeded, receive_fastest}

abbrev or_else : {E : Type 0} → E → Option E → E
or_else e none = e
or_else e (some f) = f

module _ {M E : Type 0} where
  -- The response of the first success, if there is one.
  abbrev pub first_success : List (RaceResult M E) → Option M
  first_success [] = none
  first_success (res ∷ results) = elim (succeeded res) [
    | true ↦ res.reply.resp
    | false ↦ first_success results
  ]

  -- The error that came last, and `e` if there was none.
  abbrev pub last_error : E → List (RaceResult M E) → E
  last_error e [] = e
  last_error e (res ∷ results) = last_error (elim res.reply.err [ none ↦ e | some f ↦ f ]) results

  abbrev pub response_or : E → Option M → Reply M E
  response_or e none = record { resp = none; err = some e }
  response_or e (some m) = record { resp = some m; err = none }

  module _ (no_reply : E) where
    receive_fastest-last :
        (last : Option E) (results : List (RaceResult M E))
        → receive_fastest no_reply (length results) last results
          ≡ some (response_or (last_error (or_else no_reply last) results) (first_success results))
    unfolding receive_fastest
    receive_fastest-last none [] = refl
    receive_fastest-last (some e) [] = refl
    receive_fastest-last last (res ∷ results) =
        ground (
          arith,
          receive_fastest-last (elim res.reply.err [ none ↦ last | some e ↦ some e ]) results,
        )

    -- With an answer from everybody, the loop returns: the response that arrived first among the
    -- successes, with no error; if nobody succeeded, the error that arrived last, or
    -- `ErrNoReply` if there was no error either.
    pub receive_fastest-first_success :
        (results : List (RaceResult M E))
        → receive_fastest no_reply (length results) none results
          ≡ some (response_or (last_error no_reply results) (first_success results))
    receive_fastest-first_success results = receive_fastest-last none results

    -- It does not wait for the others: after fewer failures than there are members, a success is
    -- returned whatever is still to come.
    pub receive_fastest-prompt :
        (n : ℕ) (last : Option E) (failures later : List (RaceResult M E)) (win : RaceResult M E)
        → All (λ res. succeeded res ≡ false) failures
        → succeeded win ≡ true
        → length failures < n
        → receive_fastest no_reply n last (failures ++ win ∷ later)
          ≡ some (record { resp = win.reply.resp; err = none })
    unfolding receive_fastest
    receive_fastest-prompt zero last failures later win all ok lt = elim lt [ ]
    receive_fastest-prompt (suc n) last [] later win all ok lt = ground arith
    receive_fastest-prompt (suc n) last (res ∷ failures) later win all ok lt = ground (
      arith,
      receive_fastest-prompt n (elim res.reply.err [ none ↦ last | some e ↦ some e ]) failures later
          win all.1 ok,
    )
