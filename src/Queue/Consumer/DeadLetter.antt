-- ===== src/Queue/Consumer/DeadLetter.antt =====
-- What a dead letter of internal/platform/queue/consumer.go keeps of the message.
use golang_helloworld.Prelude.{String, arith, none, refl, ◌≡◌}
use golang_helloworld.Text.{Str}
use golang_helloworld.Queue.Job.{Fields, Message, get, job_from_message, no_fields, overlay, update}
use golang_helloworld.Queue.Consumer.{dead_letter_fields}

overlay_free : (base over : Fields) (k : String) → base k ≡ none → overlay base over k ≡ over k
overlay_free base over k free = ground (arith, free)

-- The same fields under another id give the same job under that id.
read_same :
    (m m' : Message)
    → get m' "type" ≡ get m "type"
    → get m' "image_id" ≡ get m "image_id"
    → get m' "object_key" ≡ get m "object_key"
    → get m' "traceparent" ≡ get m "traceparent"
    → get m' "tracestate" ≡ get m "tracestate"
    → job_from_message m' ≡ (record (job_from_message m).0 { id = m'.id }, (job_from_message m).1)
unfolding job_from_message
read_same m m' kind image_id object_key parent state = ground arith

module _ (m : Message) (error failed_at id : Str) where
  abbrev pub dead_letter_entry : Message
  dead_letter_entry = record { id = id; fields = dead_letter_fields m error failed_at }

  abbrev own_fields : Fields
  own_fields =
      update (update (update no_fields "original_id" m.id) "error" error) "failed_at" failed_at

  get-dead_letter : (k : String) → own_fields k ≡ none → get dead_letter_entry k ≡ get m k
  unfolding dead_letter_fields
  get-dead_letter k free = rw (overlay_free own_fields m.fields k free, get) refl

  -- A dead letter reads back as the job that its message held, with the same error if it was
  -- malformed: only the id is the dead letter's own.
  pub job_from_message-dead_letter :
      job_from_message dead_letter_entry
      ≡ (record (job_from_message m).0 { id = id }, (job_from_message m).1)
  job_from_message-dead_letter =
      read_same m dead_letter_entry (get-dead_letter "type" refl) (get-dead_letter "image_id" refl)
        (get-dead_letter "object_key" refl) (get-dead_letter "traceparent" refl)
        (get-dead_letter "tracestate" refl)
