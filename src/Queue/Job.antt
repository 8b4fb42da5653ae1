-- ===== src/Queue/Job.antt =====
-- internal/platform/queue/job.go: a job and its stream entry. A Go map with string keys is a
-- function; the values of an entry that go-redis reads are all strings.
pub mod RoundTrip
use text.Mathlib.Text.{◌==◌ as key_eq}
use golang_helloworld.Prelude.{Option, String, [], if◌then◌else◌, none, some, ◌∷◌}
use golang_helloworld.Text.{Str, bytes}
use golang_helloworld.Text.Decimal.{atoi, itoa, pos, ℤ}
use golang_helloworld.Queue.Failure.{
  Failure, bad_number, fault, malformed_image_id, permanent, wrap,
}

abbrev pub Fields : Type 0
Fields = String → Option Str

abbrev pub no_fields : Fields
no_fields k = none

abbrev pub update : Fields → String → Str → Fields
update m k v = λ j. if key_eq k j then some v else m j

-- for k, v := range over { m[k] = v }
abbrev pub overlay : Fields → Fields → Fields
overlay m over = λ j. elim (over j) [ none ↦ m j | some v ↦ some v ]

pub record Job : Type 0 where
  pub id : Str
  pub kind : Str
  pub image_id : ℤ
  pub object_key : Str
  pub carrier : Fields

-- redis.XMessage
pub record Message : Type 0 where
  pub id : Str
  pub fields : Fields

abbrev pub job_type_process_image : Str
job_type_process_image = bytes "process_image"

unfoldable pub values : Job → Fields
values j =
    overlay
      (update (update (update no_fields "type" j.kind) "image_id" (itoa j.image_id)) "object_key"
        j.object_key)
      j.carrier

-- The `get` closure of jobFromMessage: "" for a key that is not there.
abbrev pub get : Message → String → Str
get m k = elim (m.fields k) [ none ↦ [] | some v ↦ v ]

abbrev pub keep_nonempty : Fields → String → Str → Fields
keep_nonempty c k [] = c
keep_nonempty c k (b ∷ v) = update c k (b ∷ v)

-- The loop over "traceparent" and "tracestate".
abbrev pub trace_of : Message → Fields
trace_of m =
    keep_nonempty (keep_nonempty no_fields "traceparent" (get m "traceparent")) "tracestate"
      (get m "tracestate")

abbrev pub read_job : Message → ℤ → Job
read_job m id = record {
  id = m.id;
  kind = get m "type";
  image_id = id;
  object_key = get m "object_key";
  carrier = trace_of m;
}

-- The job, with the error beside it: the job is used for its labels even when the id is malformed,
-- and then has image id 0.
unfoldable pub job_from_message : Message → Job × Option Failure
job_from_message m = elim (atoi (get m "image_id")) [
  | none ↦ (
    read_job m (pos 0),
    some (permanent (wrap (malformed_image_id (get m "image_id")) (fault bad_number))),
  )
  | some id ↦ (read_job m id, none)
]
