-- ===== src/Queue/Stream.antt =====
-- internal/platform/queue/producer.go and the calls of consumer.go that read the stream, with
-- internal/services/implementations/job_publisher.go. `W` is the state outside.
use golang_helloworld.Prelude.{List, Option, [], if◌then◌else◌, none, some, ℕ, ◌++◌, ◌∷◌, ◌≡◌}
use golang_helloworld.Text.{Str, bytes, str_eq}
use golang_helloworld.Text.Decimal.{InInt64, ℤ}
use golang_helloworld.Queue.Failure.{Failure, Result, err, external, fault, ok}
use golang_helloworld.Queue.Job.{
  Fields, Job, Message, job_from_message, job_type_process_image, no_fields, values,
}
use golang_helloworld.Queue.Job.RoundTrip.{IsTrace, job_from_message-values}

-- The stream server, on the stream and the group of the options, and the propagator. Creating a
-- group says whether it failed because the group was there (BUSYGROUP). A read that finds nothing
-- new answers redis.Nil, here none.
pub data GroupAnswer : Type 0 where
  created busy : GroupAnswer
  create_failed : Failure → GroupAnswer

pub record Server (W : Type 0) : Type 0 where
  pub xadd : Fields → W → Result Str × W
  pub create_group : W → GroupAnswer × W
  pub group_names : W → Result (List Str) × W
  pub autoclaim : ℕ → W → Result (List Message) × W
  pub read_group : ℕ → W → Result (Option (List Message)) × W
  pub inject : W → Fields

abbrev pub group_error : GroupAnswer → Option Failure
group_error created = none
group_error busy = none
group_error (create_failed e) = some e

abbrev pub named : Str → List Str → Option Failure
named group [] = some (fault (external (bytes "group missing")))
named group (g ∷ gs) = let rest = named group gs in if str_eq g group then none else rest

abbrev pub group_listed : Str → Result (List Str) → Option Failure
group_listed group (err e) = some e
group_listed group (ok names) = named group names

abbrev pub new_messages : Result (Option (List Message)) → Result (List Message)
new_messages (err e) = err e
new_messages (ok none) = ok []
new_messages (ok (some messages)) = ok messages

module _ {W : Type 0} (server : Server W) where
  unfoldable pub publish : Job → W → Result Str × W
  publish job w = server.xadd (values (record job { carrier = server.inject w })) w

  unfoldable pub publish_process_image : ℤ → Str → W → Option Failure × W
  publish_process_image image_id object_key w =
      let job : Job = record {
        id = [];
        kind = job_type_process_image;
        image_id = image_id;
        object_key = object_key;
        carrier = no_fields;
      } in
      let (answer, w') = publish job w in (elim answer [ ok id ↦ none | err e ↦ some e ], w')

  unfoldable pub ensure_group : W → Option Failure × W
  ensure_group w = let (answer, w') = server.create_group w in (group_error answer, w')

  unfoldable pub is_consumer_ready : Str → W → Option Failure × W
  is_consumer_ready group w =
      let (names, w') = server.group_names w in (group_listed group names, w')

  -- Entries that another consumer left idle come before new ones.
  abbrev pub fetch_new : ℕ → Result (List Message) × W → Result (List Message) × W
  fetch_new n (err e, w) = (err e, w)
  fetch_new n (ok [], w) = let (read, w') = server.read_group n w in (new_messages read, w')
  fetch_new n (ok (m ∷ ms), w) = (ok (m ∷ ms), w)

  unfoldable pub fetch_messages : ℕ → W → Result (List Message) × W
  fetch_messages n w = fetch_new n (server.autoclaim n w)

  -- What an XADD that succeeded has stored.
  pub record StoresEntries (entry_at : Str → W → Option Fields) : Type 0 where
    pub xadd_stores :
        (f : Fields) (w : W) (id : Str)
        → (server.xadd f w).0 ≡ ok id
        → entry_at id (server.xadd f w).1 ≡ some f

  -- What the server keeps of the groups: one that was created, or was busy, is listed from then on.
  pub record ListsGroups (group : Str) : Type 0 where
    pub listed :
        (w : W) (names : List Str)
        → group_error (server.create_group w).0 ≡ none
        → (server.group_names (server.create_group w).1).0 ≡ ok names
        → (before : List Str) × (after : List Str) × (names ≡ before ++ group ∷ after)

  -- A job that was published is in the stream under the id that the producer was given, and reads
  -- back as it was, with that id and the trace of the producer: for an image id that is a 64-bit
  -- int, a propagator that fills in a W3C trace, and a server that stores what it is given.
  pub job_from_message-publish :
      (entry_at : Str → W → Option Fields)
      → StoresEntries entry_at
      → (job : Job) (w : W) (id : Str) → InInt64 job.image_id
      → IsTrace (server.inject w)
      → (publish job w).0 ≡ ok id
      → (f : Fields) × (entry_at id (publish job w).1 ≡ some f)
        × (job_from_message (record { id = id; fields = f })
            ≡ (record job { id = id; carrier = server.inject w }, none))
  unfolding publish
  job_from_message-publish entry_at stores job w id in_range is_trace sent =
      let traced = record job { carrier = server.inject w } in
      (
        values traced,
        stores.xadd_stores (values traced) w id sent,
        job_from_message-values traced id is_trace in_range,
      )
