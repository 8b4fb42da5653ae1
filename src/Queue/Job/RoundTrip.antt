-- ===== src/Queue/Job/RoundTrip.antt =====
-- What the producer writes, the consumer reads back (internal/platform/queue/job.go).
use mathlib.Core.Path.{fun_ext}
use text.Mathlib.Text.{◌==◌ as key_eq}
use text.Mathlib.TextEquality.{eq_iff}
use golang_helloworld.Prelude.{
  Bool-cases, Option, String, [], ap, arith, false, if◌then◌else◌, inl, inr, none, refl, some, sym,
  ◌∙◌, ◌∷◌, ◌≡◌, ◌≢◌,
}
use golang_helloworld.Text.{Str}
use golang_helloworld.Text.Decimal.{InInt64, atoi, atoi-itoa, itoa, ℤ}
use golang_helloworld.Queue.Job.{
  Fields, Job, Message, get, job_from_message, keep_nonempty, no_fields, read_job, trace_of, values,
}

-- A carrier as the W3C propagator fills it: its two keys alone, and no empty value.
pub record IsTrace (c : Fields) : Type 0 where
  pub parent : c "traceparent" ≢ some []
  pub state : c "tracestate" ≢ some []
  pub only :
      (k : String) → key_eq "traceparent" k ≡ false → key_eq "tracestate" k ≡ false → c k ≡ none

abbrev or_empty : Option Str → Str
or_empty none = []
or_empty (some v) = v

keep_nonempty_at :
    (c : Fields) (k : String) (o : Option Str)
    → o ≢ some []
    → c k ≡ none
    → (i : String) → keep_nonempty c k (or_empty o) i ≡ (if key_eq k i then o else c i)
keep_nonempty_at c k none h free i = elim (Bool-cases (key_eq k i)) [
  | inl same ↦ rw same (ap c (sym ((eq_iff k i).0 same)) ∙ free)
  | inr differ ↦ rw differ refl
]
keep_nonempty_at c k (some []) h free i = absurd (h refl)
keep_nonempty_at c k (some (b ∷ v)) h free i = refl

-- A carrier is the sum of its two entries.
trace_parts :
    (c : Fields)
    → IsTrace c
    → (k : String)
    → c k ≡ (
        if key_eq "tracestate" k
        then c "tracestate"
        else if key_eq "traceparent" k
        then c "traceparent"
        else none)
trace_parts c t k = elim (Bool-cases (key_eq "tracestate" k)) [
  | inl state ↦ rw state (ap c (sym ((eq_iff "tracestate" k).0 state)))
  | inr apart ↦ rw apart (elim (Bool-cases (key_eq "traceparent" k)) [
    | inl parent ↦ rw parent (ap c (sym ((eq_iff "traceparent" k).0 parent)))
    | inr neither ↦ rw neither (t.only k neither apart)
  ])
]

read_ok :
    (m : Message) (z : ℤ)
    → atoi (get m "image_id") ≡ some z
    → job_from_message m ≡ (read_job m z, none)
unfolding job_from_message
read_ok m z e = rw (e, job_from_message) refl

module _ (j : Job) (id : Str) (t : IsTrace j.carrier) where
  abbrev pub entry : Message
  entry = record { id = id; fields = values j }

  get-kind : get entry "type" ≡ j.kind
  unfolding values
  get-kind = ground (arith, t.only "type" refl refl)

  get-image_id : get entry "image_id" ≡ itoa j.image_id
  unfolding values
  get-image_id = ground (arith, t.only "image_id" refl refl)

  get-object_key : get entry "object_key" ≡ j.object_key
  unfolding values
  get-object_key = ground (arith, t.only "object_key" refl refl)

  get-traceparent : get entry "traceparent" ≡ or_empty (j.carrier "traceparent")
  unfolding values
  get-traceparent = ground arith

  get-tracestate : get entry "tracestate" ≡ or_empty (j.carrier "tracestate")
  unfolding values
  get-tracestate = ground arith

  parent_at :
      (k : String)
      → keep_nonempty no_fields "traceparent" (or_empty (j.carrier "traceparent")) k
        ≡ (if key_eq "traceparent" k then j.carrier "traceparent" else none)
  parent_at = keep_nonempty_at no_fields "traceparent" (j.carrier "traceparent") t.parent refl

  trace_of-entry : trace_of entry ≡ j.carrier
  trace_of-entry = fun_ext λ k.
      rw (get-traceparent, get-tracestate)
        (keep_nonempty_at _ "tracestate" (j.carrier "tracestate") t.state (parent_at "tracestate") k
          ∙ rw (parent_at k) (sym (trace_parts j.carrier t k)))

  -- The consumer reads back the job that the producer published, under the id of its entry.
  pub job_from_message-values :
      InInt64 j.image_id → job_from_message entry ≡ (record j { id = id }, none)
  job_from_message-values h =
      read_ok entry j.image_id (ap atoi get-image_id ∙ atoi-itoa j.image_id h) ∙ λ i. (
        record {
          id = id;
          kind = get-kind i;
          image_id = j.image_id;
          object_key = get-object_key i;
          carrier = trace_of-entry i;
        },
        none,
      )
