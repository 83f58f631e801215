-- ===== src/Scheduler/Round/Retired.antt =====
-- What a round does with the upstreams that it finds live.
use dnsproxy_router.Scheduler.Round.Reuse.{
  Reuses, probe_provider-Reuses, settle_provider-keeps, insert-All,
}
use dnsproxy_router.Scheduler.Round.{
  Scheduler, new, Probe, line_key, probe_provider, probe_all, select, settle, selected_up, retire,
  is_same, is_some, signature_of, adopt, reselect, probe_and_select,
}
use mathlib.Core.Option.{some_inj}
use dnsproxy_router.Prelude.{
  ℕ, ◌≡◌, ◌⊎◌, inl, inr, refl, sym, ap, subst, ◌∙◌, Bool, true, false, Option, none, some, List, [],
  ◌∷◌, ◌++◌, Bytes, bytes_discrete, lookup, insert, if◌then◌else◌, ◌&&◌, All, Any, arith,
  Option-cases, lookup-insert_self, lookup-insert_ne,
}
use dnsproxy_router.Prelude.Sort.{SliceSort}
use dnsproxy_router.Config.{Config}
use dnsproxy_router.Scheduler.{ProbeResult, settle_provider}

module _ (live : List (Bytes × Option ℕ)) where
  abbrev IsReused : Bytes × ProbeResult → Type 0
  IsReused p = Reuses live p.0 p.1

  probe_all-Reuses :
      (next : ℕ) (providers : List (Bytes × List Probe))
      → All (λ p. All (Reuses live p.0) p.1) (probe_all live next providers).0
  unfolding probe_all
  probe_all-Reuses next [] = tt
  probe_all-Reuses next ((name, probes) ∷ providers) = (
    probe_provider-Reuses live next name probes,
    probe_all-Reuses (probe_provider live next name probes).1 providers,
  )

  select-Reuses :
      (name : Bytes) (best : Option ProbeResult) (selected : List (Bytes × ProbeResult))
      → ((b : ProbeResult) → best ≡ some b → Reuses live name b)
      → All IsReused selected
      → All IsReused (select name best selected)
  select-Reuses name none selected h all = all
  select-Reuses name (some b) selected h all = insert-All IsReused name b selected (h b refl) all

  settle-Reuses :
      (probes : List (Bytes × List ProbeResult)) (selected : List (Bytes × ProbeResult))
      (closed : List ℕ)
      → All (λ p. All (Reuses live p.0) p.1) probes
      → All IsReused selected
      → All IsReused (settle probes selected closed).0
  unfolding settle
  settle-Reuses [] selected closed h all = all
  settle-Reuses ((name, results) ∷ probes) selected closed h all =
      settle-Reuses probes (select name (settle_provider results).0 selected)
        (closed ++ (settle_provider results).1) h.1
        (select-Reuses name (settle_provider results).0 selected
          (λ b e. settle_provider-keeps (Reuses live name) results b h.0 e) all)

  -- What a new table of live upstreams has under a key that was live is the old upstream.
  abbrev Agrees : List (Bytes × Option ℕ) → Type 0
  Agrees up =
      (k : Bytes) (u : ℕ) (v : Option ℕ)
      → lookup bytes_discrete k live ≡ some (some u)
      → lookup bytes_discrete k up ≡ some v
      → v ≡ some u

  empty-Agrees : Agrees []
  unfolding lookup
  empty-Agrees k u v old new = absurd (ground arith)

  insert-Agrees :
      (name : Bytes) (b : ProbeResult) (up : List (Bytes × Option ℕ))
      → Reuses live name b
      → Agrees up
      → Agrees (insert bytes_discrete (line_key name b.addr) b.upstream up)
  insert-Agrees name b up h all k u v old new = elim (bytes_discrete k (line_key name b.addr)) [
    | yes same ↦
        some_inj.0 (
          sym (
            subst
              (λ x.
                lookup bytes_discrete x (insert bytes_discrete (line_key name b.addr) b.upstream up)
                ≡ some v)
              same new)
          ∙ lookup-insert_self bytes_discrete (line_key name b.addr) b.upstream up)
        ∙ h u (subst (λ x. lookup bytes_discrete x live ≡ some (some u)) same old)
    | no other ↦
        all k u v old
          (sym (lookup-insert_ne bytes_discrete (line_key name b.addr) k b.upstream up other) ∙ new)
  ]

  selected_up-Agrees :
      (selected : List (Bytes × ProbeResult)) (up : List (Bytes × Option ℕ))
      → All IsReused selected
      → Agrees up
      → Agrees (selected_up selected up)
  unfolding selected_up
  selected_up-Agrees [] up h all = all
  selected_up-Agrees ((name, b) ∷ selected) up h all =
      selected_up-Agrees selected (insert bytes_discrete (line_key name b.addr) b.upstream up) h.1
        (insert-Agrees name b up h.0 all)

pub lookup-cases :
    {V : Type 0} (k j : Bytes) (v u : V) (m : List (Bytes × V))
    → lookup bytes_discrete k ((j, v) ∷ m) ≡ some u
    → ((k ≡ j) × (v ≡ u)) ⊎ (lookup bytes_discrete k m ≡ some u)
unfolding lookup
lookup-cases k j v u m h = ground arith

retire-gone :
    (live up : List (Bytes × Option ℕ)) (k : Bytes) (u : Option ℕ)
    → lookup bytes_discrete k live ≡ some u
    → lookup bytes_discrete k up ≡ none
    → Any (λ v. v ≡ u) (retire live up)
unfolding retire lookup
retire-gone [] up k u h e = absurd (ground arith)
retire-gone ((j, v) ∷ live) up k u h e = elim (lookup-cases k j v u live h) [
  | inl (same, eq) ↦ rw (subst (λ x. lookup bytes_discrete x up ≡ none) same e, retire) (inl eq)
  | inr old ↦ elim (Option-cases (lookup bytes_discrete j up)) [
    | inl gone ↦ rw (gone, retire) (inr (retire-gone live up k u old e))
    | inr (w, kept) ↦ rw (kept, retire) (retire-gone live up k u old e)
  ]
]

Any-append : {A : Type 0} (P : A → Type 0) (xs ys : List A) → Any P ys → Any P (xs ++ ys)
Any-append P [] ys h = h
Any-append P (x ∷ xs) ys h = inr (Any-append P xs ys h)

pub if_both :
    {A : Type 0} (P : A → Type 0) (b : Bool) (x y : A) → P x → P y → P (if b then x else y)
if_both P true x y h k = h
if_both P false x y h k = k

module _ (slices : SliceSort Bytes) (cfg : Config) where
  abbrev IsKept : Bytes → ℕ → Scheduler → Type 0
  IsKept key u s =
      (lookup bytes_discrete key s.live ≡ some (some u)) ⊎ Any (λ v. v ≡ some u) s.retired

  adopt-IsKept :
      (s : Scheduler) (selected : List (Bytes × ProbeResult)) (key : Bytes) (u : ℕ)
      → All (IsReused s.live) selected
      → lookup bytes_discrete key s.live ≡ some (some u)
      → IsKept key u (adopt slices cfg s selected)
  unfolding adopt
  adopt-IsKept s selected key u all h =
      let up = selected_up selected [] in
      let agrees = selected_up-Agrees s.live selected [] all (empty-Agrees s.live) in
      elim (Option-cases (lookup bytes_discrete key up)) [
        | inl gone ↦ inr (
            Any-append (λ v. v ≡ some u) s.retired (retire s.live up)
              (retire-gone s.live up key (some u) h gone))
        | inr (v, there) ↦ inl (there ∙ ap some (agrees key u v h there))
      ]

  -- An upstream that is live when a round begins is live after it, under the same key, or the timer
  -- that closes it has been set, whatever the probes meet and in whatever order they end.
  pub probe_and_select-keeps :
      (s : Scheduler) (providers : List (Bytes × List Probe)) (key : Bytes) (u : ℕ)
      → lookup bytes_discrete key s.live ≡ some (some u)
      → let t = probe_and_select slices cfg s providers in
        (lookup bytes_discrete key t.live ≡ some (some u)) ⊎ Any (λ v. v ≡ some u) t.retired
  unfolding probe_and_select reselect
  probe_and_select-keeps s providers key u h =
      let probed = probe_all s.live s.next providers in
      let settled = settle probed.0 [] [] in
      let here : Scheduler = record s { next = probed.1; closed = s.closed ++ settled.1 } in
      if_both (IsKept key u)
        (is_same (signature_of slices cfg settled.0) s.signature && is_some s.current) here
        (adopt slices cfg here settled.0) (inl h)
        (adopt-IsKept here settled.0 key u
          (settle-Reuses s.live probed.0 [] [] (probe_all-Reuses s.live s.next providers) tt) h)
