-- ===== src/Domain/Events.antt =====
-- internal/domain/image/events.go: the domain event and the stream of events. A time is the number of
-- nanoseconds since the zero time, the type `V` has the values of a map, where nil is an empty map;
-- the id and the time of a new event are arguments.
pub mod Span
use golang_helloworld.Prelude.{
  Bool, List, [], if◌then◌else◌, length, ltb, not, ℕ, ◌&&◌, ◌++◌, ◌==◌, ◌||◌, ◌∷◌,
}
use golang_helloworld.Text.{Str, str_eq}

module _ (V : Type 0) where
  pub record DomainEvent : Type 0 where
    pub event_id : Str
    pub event_type : Str
    pub aggregate_id : Str
    pub user_id : Str
    pub version : ℕ
    pub data_of : List (Str × V)
    pub event_metadata : List (Str × V)
    pub timestamp : ℕ

  pub record EventStream : Type 0 where
    pub events : List DomainEvent
    pub from : ℕ
    pub to : ℕ
    pub total : ℕ

  abbrev pub new_event_stream : EventStream
  new_event_stream = record { events = []; from = 0; to = 0; total = 0 }

-- What AddEvent makes of From and of To.
abbrev pub earliest : ℕ → ℕ → ℕ
earliest from t = if from == 0 || ltb t from then t else from

abbrev pub latest : ℕ → ℕ → ℕ
latest to t = if to == 0 || ltb to t then t else to

module _ {V : Type 0} where
  abbrev pub new_domain_event : Str → ℕ → Str → Str → Str → List (Str × V) → DomainEvent V
  new_domain_event id now kind aggregate user values = record {
    event_id = id;
    event_type = kind;
    aggregate_id = aggregate;
    user_id = user;
    version = 1;
    data_of = values;
    event_metadata = [];
    timestamp = now;
  }

  -- e.Metadata[key] = value
  unfoldable pub with_entry : Str → V → List (Str × V) → List (Str × V)
  with_entry key value [] = (key, value) ∷ []
  with_entry key value ((k, v) ∷ entries) =
      let rest = with_entry key value entries in
      if str_eq key k then (k, value) ∷ entries else (k, v) ∷ rest

  abbrev pub add_metadata : Str → V → DomainEvent V → DomainEvent V
  unfolding with_entry
  add_metadata key value e = record e { event_metadata = with_entry key value e.event_metadata }

  unfoldable pub is_valid : DomainEvent V → Bool
  is_valid e =
      not (str_eq e.event_id [])
      && not (str_eq e.event_type [])
      && not (str_eq e.aggregate_id [])
      && not (e.timestamp == 0)

  abbrev pub add_event : EventStream V → DomainEvent V → EventStream V
  add_event s e = record {
    events = s.events ++ e ∷ [];
    from = earliest s.from e.timestamp;
    to = latest s.to e.timestamp;
    total = length (s.events ++ e ∷ []);
  }

  -- The loop that the three filters share.
  abbrev pub filtered : (DomainEvent V → Bool) → List (DomainEvent V) → List (DomainEvent V)
  filtered keeps [] = []
  filtered keeps (e ∷ events) =
      let rest = filtered keeps events in if keeps e then e ∷ rest else rest

  abbrev pub filter_by_type : EventStream V → Str → List (DomainEvent V)
  filter_by_type s kind = filtered (λ e. str_eq e.event_type kind) s.events

  abbrev pub filter_by_aggregate_id : EventStream V → Str → List (DomainEvent V)
  filter_by_aggregate_id s id = filtered (λ e. str_eq e.aggregate_id id) s.events

  abbrev pub filter_by_time_range : EventStream V → ℕ → ℕ → List (DomainEvent V)
  filter_by_time_range s from to =
      filtered (λ e. ltb from e.timestamp && ltb e.timestamp to) s.events

  abbrev pub add_all : EventStream V → List (DomainEvent V) → EventStream V
  add_all s [] = s
  add_all s (e ∷ events) = add_all (add_event s e) events
