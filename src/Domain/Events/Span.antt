-- ===== src/Domain/Events/Span.antt =====
-- internal/domain/image/events.go: From, To and Total of a stream stay those of its events.
use golang_helloworld.Prelude.{
  All, All-imp, List, [], append-nil, append_assoc, arith, inl, inr, length, refl, subst, sym, true,
  ℕ, ◌++◌, ◌<◌, ◌∙◌, ◌∷◌, ◌≡◌, ◌≤◌, ◌⊎◌,
}
use golang_helloworld.Domain.Events.{
  DomainEvent, EventStream, add_all, add_event, earliest, is_valid, latest,
}

earliest_cases :
    (from t : ℕ)
    → ((earliest from t ≡ t) × ((from ≡ 0) ⊎ (t ≤ from))) ⊎ ((earliest from t ≡ from) × (from ≤ t))
earliest_cases from t = ground arith

latest_cases : (to t : ℕ) → ((latest to t ≡ t) × (to ≤ t)) ⊎ ((latest to t ≡ to) × (t ≤ to))
latest_cases to t = ground arith

module _ {V : Type 0} where
  abbrev Within : ℕ → ℕ → DomainEvent V → Type 0
  Within from to e = (from ≤ e.timestamp) × (e.timestamp ≤ to)

  abbrev pub Occurs : ℕ → List (DomainEvent V) → Type 0
  Occurs t [] = ⊥
  Occurs t (e ∷ events) = (t ≡ e.timestamp) ⊎ Occurs t events

  -- The bounds of a stream: zero for no event, and else the first and the last time of its events.
  abbrev pub Spans : ℕ → ℕ → List (DomainEvent V) → Type 0
  Spans from to [] = (from ≡ 0) × (to ≡ 0)
  Spans from to (e ∷ events) =
      (0 < from)
      × All (Within from to) (e ∷ events)
      × Occurs from (e ∷ events)
      × Occurs to (e ∷ events)

  abbrev pub IsStream : EventStream V → Type 0
  IsStream s = (s.total ≡ length s.events) × Spans s.from s.to s.events

  All-last :
      (P : DomainEvent V → Type 0) (events : List (DomainEvent V)) (e : DomainEvent V)
      → All P events
      → P e
      → All P (events ++ e ∷ [])
  All-last P [] e h he = (he, tt)
  All-last P (x ∷ events) e h he = (h.0, All-last P events e h.1 he)

  Occurs-last :
      (events : List (DomainEvent V)) (e : DomainEvent V) (t : ℕ)
      → (t ≡ e.timestamp) ⊎ Occurs t events
      → Occurs t (events ++ e ∷ [])
  Occurs-last [] e t (inl same) = inl same
  Occurs-last [] e t (inr h) = absurd h
  Occurs-last (x ∷ events) e t (inl same) = inr (Occurs-last events e t (inl same))
  Occurs-last (x ∷ events) e t (inr (inl here)) = inl here
  Occurs-last (x ∷ events) e t (inr (inr h)) = inr (Occurs-last events e t (inr h))

  Occurs-earliest :
      (from : ℕ) (events : List (DomainEvent V)) (e : DomainEvent V)
      → Occurs from events
      → (earliest from e.timestamp ≡ e.timestamp) ⊎ Occurs (earliest from e.timestamp) events
  Occurs-earliest from events e h = elim (earliest_cases from e.timestamp) [
    | inl (same, _) ↦ inl same
    | inr (kept, _) ↦ inr (subst (λ t. Occurs t events) (sym kept) h)
  ]

  Occurs-latest :
      (to : ℕ) (events : List (DomainEvent V)) (e : DomainEvent V)
      → Occurs to events
      → (latest to e.timestamp ≡ e.timestamp) ⊎ Occurs (latest to e.timestamp) events
  Occurs-latest to events e h = elim (latest_cases to e.timestamp) [
    | inl (same, _) ↦ inl same
    | inr (kept, _) ↦ inr (subst (λ t. Occurs t events) (sym kept) h)
  ]

  Within-add :
      (from to : ℕ) (e x : DomainEvent V)
      → 0 < from
      → Within from to x
      → Within (earliest from e.timestamp) (latest to e.timestamp) x
  Within-add from to e x early h =
      let ef = earliest_cases from e.timestamp in
      let lt = latest_cases to e.timestamp in
      let low = h.0 in let high = h.1 in (ground (arith, ef, early, low), ground (arith, lt, high))

  Within-new :
      (from to : ℕ) (e : DomainEvent V)
      → 0 < e.timestamp
      → Within (earliest from e.timestamp) (latest to e.timestamp) e
  Within-new from to e dated =
      let ef = earliest_cases from e.timestamp in
      let lt = latest_cases to e.timestamp in (ground (arith, ef), ground (arith, lt))

  Spans-add :
      (from to : ℕ) (events : List (DomainEvent V)) (e : DomainEvent V)
      → 0 < e.timestamp
      → Spans from to events
      → Spans (earliest from e.timestamp) (latest to e.timestamp) (events ++ e ∷ [])
  Spans-add from to [] e dated (no_from, no_to) =
      (ground arith, (Within-new from to e dated, tt), inl (ground arith), inl (ground arith))
  Spans-add from to (x ∷ events) e dated (early, within, starts, ends) =
      let ef = earliest_cases from e.timestamp in
      (
        ground arith,
        All-last (Within (earliest from e.timestamp) (latest to e.timestamp)) (x ∷ events) e
            (All-imp (x ∷ events) (λ y h. Within-add from to e y early h) within)
            (Within-new from to e dated),
        Occurs-last (x ∷ events) e (earliest from e.timestamp)
            (Occurs-earliest from (x ∷ events) e starts),
        Occurs-last (x ∷ events) e (latest to e.timestamp) (Occurs-latest to (x ∷ events) e ends),
      )

  is_valid-dated : (e : DomainEvent V) → is_valid e ≡ true → 0 < e.timestamp
  unfolding is_valid
  is_valid-dated e h = ground arith

  -- A stream that was built from valid events, one after the other, has them in their order, and
  -- their number as its total; From and To are times of its events, and no event is before From or
  -- after To. It takes that this was so for the events that the stream had before, of which a new
  -- stream has none.
  pub add_all-IsStream :
      (s : EventStream V) (events : List (DomainEvent V))
      → IsStream s
      → All (λ e. is_valid e ≡ true) events
      → IsStream (add_all s events) × ((add_all s events).events ≡ s.events ++ events)
  add_all-IsStream s [] h valid = (h, sym (append-nil s.events))
  add_all-IsStream s (e ∷ events) h valid =
      let (fine, in_order) =
        add_all-IsStream (add_event s e) events
          (refl, Spans-add s.from s.to s.events e (is_valid-dated e valid.0) h.1) valid.1 in
      (fine, in_order ∙ append_assoc s.events (e ∷ []) events)
