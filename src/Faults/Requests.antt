-- ===== src/Faults/Requests.antt =====
-- What internal/faults/injector.go does to a request.
use golang_helloworld.Prelude.{
  Bool, Bool-cases, List, Option, [], append-nil, false, if◌then◌else◌, inl, inr, none, not, refl,
  some, subst, sym, true, ◌&&◌, ◌++◌, ◌||◌, ◌∷◌, ◌≡◌, ◌⊎◌,
}
use golang_helloworld.Text.{Str, bytes}
use golang_helloworld.Queue.Failure.{Failure}
use golang_helloworld.Domain.{above}
use golang_helloworld.Text.Search.{has_prefix}
use golang_helloworld.Faults.{Controls, Float, active, matches_latency_route}
use golang_helloworld.Faults.Injector.{
  Answer, Injector, Note, Traced, after_sleep, client_gone, delay_of, delayed, draw, error, exempt,
  inject_error, inject_latency, injected_fault, latency, middleware, refuse, refused_503, serve,
  served, slept, start, with_controls,
}

-- The rules by which a request meets the faults. Each relates the world before to the answer, the
-- notes and the world after; the next handler is called by the rules that end in `served` only.
module _ (fl : Float) {W : Type 0} (inj : Injector fl W) where
  -- The error, whose number is drawn only if its probability is above 0.
  pub data MeetsError (c : Controls fl) (w : W) : Answer → List Note → W → Type 0 where
    impossible :
        fl.less fl.zero_point c.error_probability ≡ false → MeetsError c w served [] (inj.next w)
    spared :
        fl.less fl.zero_point c.error_probability ≡ true
        → fl.less (inj.rnd w).0 c.error_probability ≡ false
        → MeetsError c w served [] (inj.next (inj.rnd w).1)
    struck :
        fl.less fl.zero_point c.error_probability ≡ true
        → fl.less (inj.rnd w).0 c.error_probability ≡ true
        → MeetsError c w refused_503 (injected_fault error ∷ []) (inj.rnd w).1

  -- The latency before it, on the routes that the controls name.
  pub data MeetsLatency (c : Controls fl) (path : Str) (w : W)
      : Answer → List Note → W → Type 0 where
    not_meant :
        {answer : Answer} {notes : List Note} {w' : W}
        → (above c.latency_ms 0 ≡ false) ⊎ (matches_latency_route fl c path ≡ false)
        → MeetsError c w answer notes w'
        → MeetsLatency c path w answer notes w'
    not_drawn :
        {answer : Answer} {notes : List Note} {w' : W}
        → above c.latency_ms 0 ≡ true
        → matches_latency_route fl c path ≡ true
        → fl.less (inj.rnd w).0 c.latency_probability ≡ false
        → MeetsError c (inj.rnd w).1 answer notes w'
        → MeetsLatency c path w answer notes w'
    delayed_first :
        {answer : Answer} {notes : List Note} {w' : W}
        → above c.latency_ms 0 ≡ true
        → matches_latency_route fl c path ≡ true
        → fl.less (inj.rnd w).0 c.latency_probability ≡ true
        → (inj.sleep (delay_of c.latency_ms) (inj.rnd w).1).0 ≡ none
        → MeetsError c (inj.sleep (delay_of c.latency_ms) (inj.rnd w).1).1 answer notes w'
        → MeetsLatency c path w answer
            (injected_fault latency ∷ slept (delay_of c.latency_ms) ∷ notes)
            w'
    gone_away :
        (e : Failure)
        → above c.latency_ms 0 ≡ true
        → matches_latency_route fl c path ≡ true
        → fl.less (inj.rnd w).0 c.latency_probability ≡ true
        → (inj.sleep (delay_of c.latency_ms) (inj.rnd w).1).0 ≡ some e
        → MeetsLatency c path w client_gone
            (injected_fault latency ∷ slept (delay_of c.latency_ms) ∷ [])
            (inj.sleep (delay_of c.latency_ms) (inj.rnd w).1).1

  -- Requests outside the API, and those to the controls themselves, ask for no controls.
  pub data Meets (path : Str) (w : W) : Answer → List Note → W → Type 0 where
    outside_api : has_prefix path (bytes "/api/") ≡ false → Meets path w served [] (inj.next w)
    to_controls :
        has_prefix path (bytes "/api/settings/demo") ≡ true → Meets path w served [] (inj.next w)
    unread : (inj.source w).0 ≡ none → Meets path w served [] (inj.next (inj.source w).1)
    inactive :
        (c : Controls fl)
        → (inj.source w).0 ≡ some c
        → active fl c ≡ false
        → Meets path w served [] (inj.next (inj.source w).1)
    under_controls :
        {answer : Answer} {notes : List Note} {w' : W} (c : Controls fl)
        → has_prefix path (bytes "/api/") ≡ true
        → has_prefix path (bytes "/api/settings/demo") ≡ false
        → (inj.source w).0 ≡ some c
        → active fl c ≡ true
        → MeetsLatency c path (inj.source w).1 answer notes w'
        → Meets path w answer notes w'

  -- What a stage adds to the notes that there are.
  abbrev AddsBy : (Answer → List Note → W → Type 0) → List Note → Answer × Traced W → Type 0
  AddsBy rule before (answer, s) =
      (added : List Note) × (s.notes ≡ before ++ added) × rule answer added s.world

  inject_error-MeetsError :
      (c : Controls fl) (w : W) (before : List Note)
      → AddsBy
          (MeetsError c w)
          before
          (inject_error fl inj c (record { world = w; notes = before }))
  unfolding inject_error
  inject_error-MeetsError c w before =
      elim (Bool-cases (fl.less fl.zero_point c.error_probability)) [
        | inr never ↦ rw never ([], sym (append-nil before), impossible never)
        | inl likely ↦ rw likely (drawn (fl.less (inj.rnd w).0 c.error_probability) refl likely)
      ]
    where
      drawn :
          (b : Bool)
          → fl.less (inj.rnd w).0 c.error_probability ≡ b
          → fl.less fl.zero_point c.error_probability ≡ true
          → AddsBy
              (MeetsError c w)
              before
              (refuse fl inj (b, record { world = (inj.rnd w).1; notes = before }))
      drawn true hit likely = (injected_fault error ∷ [], refl, struck likely hit)
      drawn false missed likely = ([], sym (append-nil before), spared likely missed)

  inject_latency-MeetsLatency :
      (c : Controls fl) (path : Str) (w : W)
      → AddsBy (MeetsLatency c path w) [] (inject_latency fl inj c path (start w))
  unfolding inject_latency
  inject_latency-MeetsLatency c path w =
      wanted (above c.latency_ms 0) (matches_latency_route fl c path) refl refl
    where
      asleep :
          (e : Option Failure)
          → (inj.sleep (delay_of c.latency_ms) (inj.rnd w).1).0 ≡ e
          → above c.latency_ms 0 ≡ true
          → matches_latency_route fl c path ≡ true
          → fl.less (inj.rnd w).0 c.latency_probability ≡ true
          → AddsBy (MeetsLatency c path w) [] (
              after_sleep fl inj c (
                e,
                record {
                  world = (inj.sleep (delay_of c.latency_ms) (inj.rnd w).1).1;
                  notes = injected_fault latency ∷ slept (delay_of c.latency_ms) ∷ [];
                },
              ))
      asleep (some e) cut long here hit = (
        injected_fault latency ∷ slept (delay_of c.latency_ms) ∷ [],
        refl,
        gone_away e long here hit cut,
      )
      asleep none whole long here hit =
          let (added, noted, rule) =
            inject_error-MeetsError c (inj.sleep (delay_of c.latency_ms) (inj.rnd w).1).1
              (injected_fault latency ∷ slept (delay_of c.latency_ms) ∷ []) in
          (
            injected_fault latency ∷ slept (delay_of c.latency_ms) ∷ added,
            noted,
            delayed_first long here hit whole rule,
          )

      drawn :
          (b : Bool)
          → fl.less (inj.rnd w).0 c.latency_probability ≡ b
          → above c.latency_ms 0 ≡ true
          → matches_latency_route fl c path ≡ true
          → AddsBy (MeetsLatency c path w) [] (delayed fl inj c (b, start (inj.rnd w).1))
      drawn true hit long here =
          asleep (inj.sleep (delay_of c.latency_ms) (inj.rnd w).1).0 refl long here hit
      drawn false missed long here =
          let (added, noted, rule) = inject_error-MeetsError c (inj.rnd w).1 [] in
          (added, noted, not_drawn long here missed rule)

      straight :
          (above c.latency_ms 0 ≡ false) ⊎ (matches_latency_route fl c path ≡ false)
          → AddsBy (MeetsLatency c path w) [] (inject_error fl inj c (start w))
      straight why =
          let (added, noted, rule) = inject_error-MeetsError c w [] in
          (added, noted, not_meant why rule)

      wanted :
          (long here : Bool)
          → above c.latency_ms 0 ≡ long
          → matches_latency_route fl c path ≡ here
          → AddsBy (MeetsLatency c path w) [] (
              if long && here
              then delayed fl inj c (draw fl inj c.latency_probability (start w))
              else inject_error fl inj c (start w))
      wanted true true long here =
          drawn (fl.less (inj.rnd w).0 c.latency_probability) refl long here
      wanted true false long here = straight (inr here)
      wanted false here long e = straight (inl long)

  -- A request is served, refused or left by its client just as the rules say: outside the API, under
  -- the path of the controls, without controls or with idle ones it is served with nothing injected;
  -- else it meets the latency if the route and the draw say so, goes no further if the client leaves
  -- during it, and then meets the error if the draw says so. The next handler is called once if the
  -- request is served, and not at all else.
  pub middleware-Meets :
      (path : Str) (w : W)
      → let (answer, s) = middleware fl inj path (start w) in Meets path w answer s.notes s.world
  unfolding middleware exempt
  middleware-Meets path w =
      asked (has_prefix path (bytes "/api/")) (has_prefix path (bytes "/api/settings/demo")) refl
        refl
    where
      Way : Answer × Traced W → Type 0
      Way (answer, s) = Meets path w answer s.notes s.world

      acting :
          (c : Controls fl) (b : Bool)
          → (inj.source w).0 ≡ some c
          → active fl c ≡ b
          → has_prefix path (bytes "/api/") ≡ true
          → has_prefix path (bytes "/api/settings/demo") ≡ false
          → Way (
              if b
              then inject_latency fl inj c path (start (inj.source w).1)
              else serve fl inj (start (inj.source w).1))
      acting c false read idle api other_path = inactive c read idle
      acting c true read busy api other_path =
          let (added, noted, rule) = inject_latency-MeetsLatency c path (inj.source w).1 in
          let answer = inject_latency fl inj c path (start (inj.source w).1) in
          subst (λ (n : List Note). Meets path w answer.0 n answer.1.world) (sym noted)
            (under_controls c api other_path read busy rule)

      found :
          (o : Option (Controls fl))
          → (inj.source w).0 ≡ o
          → has_prefix path (bytes "/api/") ≡ true
          → has_prefix path (bytes "/api/settings/demo") ≡ false
          → Way (with_controls fl inj path o (start (inj.source w).1))
      found none read api other_path = unread read
      found (some c) read api other_path = acting c (active fl c) read refl api other_path

      asked :
          (api demo : Bool)
          → has_prefix path (bytes "/api/") ≡ api
          → has_prefix path (bytes "/api/settings/demo") ≡ demo
          → Way (
              if not api || demo
              then serve fl inj (start w)
              else with_controls fl inj path (inj.source w).0 (start (inj.source w).1))
      asked false demo api e = outside_api api
      asked true true api e = to_controls e
      asked true false api e = found (inj.source w).0 refl api e
