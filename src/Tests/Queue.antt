-- ===== src/Tests/Queue.antt =====
-- internal/platform/queue: runs at concrete inputs, and instances of the theorems.
use golang_helloworld.Prelude.{
  Option, [], arith, none, refl, some, suc, true, zero, ℕ, ◌∷◌, ◌≡◌, ◌≤◌,
}
use golang_helloworld.Queue.Consumer.Bounds.{
  as_ack, as_attempt, as_dead_letter, as_other_ack, as_pause, handle_counts, total,
}
use golang_helloworld.Queue.Stream.{Server, StoresEntries, busy, job_from_message-publish, publish}
use golang_helloworld.Text.{Str, bytes}
use golang_helloworld.Text.Decimal.{InInt64, atoi, itoa, itoa_nat, negsuc}
use golang_helloworld.Queue.Failure.{external, fault, ok}
use golang_helloworld.Queue.Job.{
  Fields, Job, Message, job_from_message, job_type_process_image, no_fields, update, values,
}
use golang_helloworld.Queue.Job.RoundTrip.{IsTrace, job_from_message-values}
use golang_helloworld.Queue.Consumer.{
  Options, Outside, Reply, Run, ack, acked, attempt, attempted, attempts, attempts_from, back_off,
  counted, dead_letter_fields, handle, paused, retry, returns, success,
}
use golang_helloworld.Queue.Consumer.Attempts.{answers, attempts-decide, decide, timeline}
use golang_helloworld.Queue.Consumer.Delivery.{handle-story, story}
use golang_helloworld.Queue.Consumer.DeadLetter.{job_from_message-dead_letter}

abbrev trace_seven : Fields
trace_seven = update no_fields "traceparent" (bytes "00-7")

abbrev job_seven : Job
job_seven = record {
  id = [];
  kind = job_type_process_image;
  image_id = negsuc 6;
  object_key = bytes "images/7";
  carrier = trace_seven;
}

trace_seven-IsTrace : IsTrace trace_seven
trace_seven-IsTrace = record {
  parent = λ e. ground arith;
  state = λ e. ground arith;
  only = λ k not_parent not_state. rw not_parent refl;
}

in_int64 : InInt64 (negsuc 6)
in_int64 = omega arith

job_from_message-values_example :
    job_from_message (record { id = bytes "1-0"; fields = values job_seven })
    ≡ (record job_seven { id = bytes "1-0" }, none)
job_from_message-values_example =
    job_from_message-values job_seven (bytes "1-0") trace_seven-IsTrace in_int64

-- A handler that fails as often as the number says, and then succeeds.
abbrev flaky : Job → ℕ → Reply × ℕ
flaky job zero = (returns none, 0)
flaky job (suc n) = (returns (some (fault (external []))), n)

abbrev flaky_outside : Outside ℕ
flaky_outside = record {
  handler = flaky;
  text_of = λ e. [];
  now = λ w. [];
  xadd_dead = λ f w. (true, w);
  xack = λ id w. (true, w);
  on_dead_letter = some (λ job cause w. w);
}

abbrev message_seven : Message
message_seven = record { id = bytes "1-0"; fields = values job_seven }

abbrev quick : Options
quick = record { max_attempts = 3; backoff = λ n. n; claim_idle = 100; concurrency = 2 }

abbrev fresh : ℕ → Run ℕ
fresh n = record { world = n; trace = [] }

-- Two failures are retried, the third attempt succeeds.
third_time :
    (handle quick flaky_outside message_seven (fresh 2)).trace
    ≡ attempted 1
      ∷ counted retry
      ∷ paused 1
      ∷ attempted 2
      ∷ counted retry
      ∷ paused 2
      ∷ attempted 3
      ∷ acked (bytes "1-0")
      ∷ counted success
      ∷ []
unfolding handle attempts attempts_from attempt back_off ack values job_from_message atoi itoa
    itoa_nat
third_time = refl

attempts-decide_example :
    ((attempts quick flaky_outside job_seven (fresh 2)).0
      ≡ decide none (answers flaky_outside job_seven 3 2))
    × ((attempts quick flaky_outside job_seven (fresh 2)).1.trace
        ≡ timeline (λ n. n) 1 (answers flaky_outside job_seven 3 2))
attempts-decide_example = attempts-decide quick flaky_outside job_seven (fresh 2)

handle-story_example :
    (handle quick flaky_outside message_seven (fresh 5)).trace
    ≡ story quick flaky_outside message_seven 5
handle-story_example = handle-story quick flaky_outside message_seven (fresh 5)

handle_counts_example :
    let s' = handle quick flaky_outside message_seven (fresh 5) in
    (total as_ack s'.trace ≡ 1)
    × (total (as_other_ack (bytes "1-0")) s'.trace ≡ 0)
    × (total as_dead_letter s'.trace ≤ 1)
    × (total as_attempt s'.trace ≤ 3)
    × (total as_pause s'.trace ≤ 3)
handle_counts_example = handle_counts quick flaky_outside message_seven (fresh 5)

job_from_message-dead_letter_example :
    job_from_message (record {
      id = bytes "2-0";
      fields = dead_letter_fields message_seven (bytes "broken") (bytes "now");
    })
    ≡ (
      record (job_from_message message_seven).0 { id = bytes "2-0" },
      (job_from_message message_seven).1,
    )
job_from_message-dead_letter_example =
    job_from_message-dead_letter message_seven (bytes "broken") (bytes "now") (bytes "2-0")

-- A server that keeps the last entry, and one group.
abbrev one_entry : Server (Option Fields)
one_entry = record {
  xadd = λ f w. (ok (bytes "5-0"), some f);
  create_group = λ w. (busy, w);
  group_names = λ w. (ok (bytes "workers" ∷ []), w);
  autoclaim = λ n w. (ok [], w);
  read_group = λ n w. (ok none, w);
  inject = λ w. trace_seven;
}

abbrev last_entry : Str → Option Fields → Option Fields
last_entry id w = w

one_entry-StoresEntries : StoresEntries one_entry last_entry
one_entry-StoresEntries = record { xadd_stores = λ f w id e. refl }

published_seven : (publish one_entry job_seven none).0 ≡ ok (bytes "5-0")
unfolding publish
published_seven = refl

job_from_message-publish_example :
    (f : Fields) × (last_entry (bytes "5-0") (publish one_entry job_seven none).1 ≡ some f)
    × (job_from_message (record { id = bytes "5-0"; fields = f })
        ≡ (record job_seven { id = bytes "5-0"; carrier = trace_seven }, none))
job_from_message-publish_example =
    job_from_message-publish one_entry last_entry one_entry-StoresEntries job_seven none
      (bytes "5-0") in_int64 trace_seven-IsTrace published_seven
