-- ===== src/Tests/Worker.antt =====
-- internal/worker: a database in memory, runs on it, and instances of the theorems.
use golang_helloworld.Worker.Keys.{thumbnail_key_inj}
use golang_helloworld.Worker.Effects.{LeavesRows}
use golang_helloworld.Worker.Errors.{NeverSkips}
use golang_helloworld.Worker.Lifecycle.{Stream, worker_outside}
use golang_helloworld.Worker.Settled.{IsSettled, StreamLeavesRows, handle-IsSettled}
use golang_helloworld.Queue.Consumer.{default_options, handle}
use golang_helloworld.Prelude.{
  Option, [], ap, arith, false, inl, inr, none, refl, some, suc, sym, true, zero, ◌≡◌, ◌≢◌,
}
use golang_helloworld.Text.{bytes}
use golang_helloworld.Text.Decimal.{atoi, itoa, itoa_nat, negsuc, pos, ℤ}
use golang_helloworld.Queue.Failure.{Failure, Result, err, external, fault, is_skip, ok}
use golang_helloworld.Queue.Job.{
  Job, Message, job_from_message, job_type_process_image, no_fields, values,
}
use golang_helloworld.Worker.Images.{
  Image, Repository, RepositoryLaws, Row, Writes, pending, ready, with_result, with_status,
}
use golang_helloworld.Worker.{Codec, Processor, Store, new_processor, thumbnail_key}

-- A database with the one row of image 1.
abbrev pub row_of : ℤ → Row → Option Row
row_of (pos (suc zero)) r = some r
row_of _ r = none

abbrev pub find : ℤ → Row → Result Image × Row
find (pos (suc zero)) r =
    (ok (record { id = pos 1; storage_path = r.storage_path; status = r.status }), r)
find _ r = (err (fault (external (bytes "not found"))), r)

abbrev write : (Row → Row) → ℤ → Row → Option Failure × Row
write f (pos (suc zero)) r = (none, f r)
write f _ r = (some (fault (external (bytes "not found"))), r)

abbrev table : Repository Row
table = record {
  get_by_id = find;
  update_status = λ id s e. write (with_status s e) id;
  complete_processing = λ id pr. write (with_result pr) id;
}

write-Writes : (f : Row → Row) (id : ℤ) (r : Row) → Writes row_of id f r (write f id r)
write-Writes f (pos (suc zero)) r = record {
  elsewhere = only_one;
  written = λ e. (r, refl, refl);
  not_written = inr (r, refl, refl);
}
  where
    only_one : (j : ℤ) → j ≢ pos 1 → row_of j (f r) ≡ row_of j r
    only_one (pos zero) h = refl
    only_one (pos (suc zero)) h = absurd (h refl)
    only_one (pos (suc (suc n))) h = refl
    only_one (negsuc n) h = refl
write-Writes f (pos zero) r = record {
  elsewhere = λ j h. refl;
  written = λ e. ground arith;
  not_written = inl refl;
}
write-Writes f (pos (suc (suc n))) r = record {
  elsewhere = λ j h. refl;
  written = λ e. ground arith;
  not_written = inl refl;
}
write-Writes f (negsuc n) r = record {
  elsewhere = λ j h. refl;
  written = λ e. ground arith;
  not_written = inl refl;
}

pub find_keeps : (id : ℤ) (r : Row) → (find id r).1 ≡ r
find_keeps (pos zero) r = refl
find_keeps (pos (suc zero)) r = refl
find_keeps (pos (suc (suc n))) r = refl
find_keeps (negsuc n) r = refl

pub find_reads :
    (id : ℤ) (w : Row) (img : Image)
    → (find id w).0 ≡ ok img
    → (img.id ≡ id) × ((r : Row) × (row_of id w ≡ some r) × (img.status ≡ r.status))
find_reads (pos zero) w img e = ground arith
find_reads (pos (suc zero)) w img e =
    let ok-inj : record { id = pos 1; storage_path = w.storage_path; status = w.status } ≡ img =
      cc in
    (sym (ap (λ (i : Image). i.id) ok-inj), (w, refl, sym (ap (λ (i : Image). i.status) ok-inj)))
find_reads (pos (suc (suc n))) w img e = ground arith
find_reads (negsuc n) w img e = ground arith

table-RepositoryLaws : RepositoryLaws table row_of
table-RepositoryLaws = record {
  get_keeps = λ id j w. ap (row_of j) (find_keeps id w);
  get_reads = find_reads;
  update_status_writes = λ id s e w. write-Writes (with_status s e) id w;
  complete_processing_writes = λ id pr w. write-Writes (with_result pr) id w;
}

abbrev blank_codec : Codec
blank_codec = record {
  decode_config = λ content. ok (640, 480);
  get_image_info = λ content. ok (record {
    width = 640;
    height = 480;
    format = bytes "png";
    color_space = [];
    has_alpha = true;
  });
  generate_thumbnail = λ content x y. ok [];
}

abbrev full_store : Store Row
full_store = record {
  retrieve = λ path w. (ok (record { content = path; read_error = none }), w);
  store_at = λ key kind content w. (none, w);
}

-- The object is missing.
abbrev empty_store : Store Row
empty_store = record {
  retrieve = λ path w. (err (fault (external (bytes "no such key"))), w);
  store_at = λ key kind content w. (none, w);
}

abbrev worker : Processor Row
worker = new_processor table full_store blank_codec none

abbrev lost : Processor Row
lost = new_processor table empty_store blank_codec none

abbrev new_row : Row
new_row = record {
  storage_path = bytes "images/1";
  status = pending;
  processing_error = none;
  result = none;
}

abbrev done_row : Row
done_row = record {
  storage_path = bytes "images/1";
  status = ready;
  processing_error = none;
  result = none;
}

abbrev job_one : Job
job_one = record {
  id = bytes "1-0";
  kind = job_type_process_image;
  image_id = pos 1;
  object_key = bytes "images/1";
  carrier = no_fields;
}

abbrev message_one : Message
message_one = record { id = bytes "1-0"; fields = values job_one }

lost-LeavesRows : LeavesRows lost row_of
unfolding new_processor
lost-LeavesRows = record {
  retrieve_keeps = λ path w j. refl;
  store_keeps = λ key kind content w j. refl;
  faults_keep = λ g e w j. ground arith;
}

lost-RepositoryLaws : RepositoryLaws lost.images row_of
unfolding new_processor
lost-RepositoryLaws = table-RepositoryLaws

find_skip : (id : ℤ) (w : Row) (e : Failure) → (find id w).0 ≡ err e → is_skip e ≡ false
find_skip (pos zero) w e h = ground arith
find_skip (pos (suc zero)) w e h = ground arith
find_skip (pos (suc (suc n))) w e h = ground arith
find_skip (negsuc n) w e h = ground arith

write_skip :
    (f : Row → Row) (id : ℤ) (w : Row) (e : Failure) → (write f id w).0 ≡ some e → is_skip e ≡ false
write_skip f (pos zero) w e h = ground arith
write_skip f (pos (suc zero)) w e h = ground arith
write_skip f (pos (suc (suc n))) w e h = ground arith
write_skip f (negsuc n) w e h = ground arith

lost-NeverSkips : NeverSkips lost
unfolding new_processor
lost-NeverSkips = record {
  get = find_skip;
  update = λ id s c. write_skip (with_status s c) id;
  complete = λ id pr. write_skip (with_result pr) id;
  retrieve = λ path w e h. ground arith;
  read = λ path w r e h same. ground arith;
  store = λ key kind content w e h. ground arith;
  config = λ content e h. ground arith;
  info = λ content e h. ground arith;
  thumb = λ content x y e h. ground arith;
  fault_of = λ f h w e same. ground arith;
}

abbrev stream : Stream Row
stream = record {
  text_of = λ e. [];
  now = λ w. [];
  xadd_dead = λ f w. (true, w);
  xack = λ id w. (true, w);
}

stream-StreamLeavesRows : StreamLeavesRows stream row_of
stream-StreamLeavesRows = record { xadd_keeps = λ f w j. refl; xack_keeps = λ id w j. refl }

message_one_reads : job_from_message message_one ≡ (job_one, none)
unfolding values job_from_message atoi itoa itoa_nat
message_one_reads = refl

-- The object is gone, every attempt fails, and the image ends failed.
handle-IsSettled_example : IsSettled (
    row_of
      (pos 1)
      (handle default_options
        (worker_outside lost stream)
        message_one
        (record { world = new_row; trace = [] })).world)
unfolding new_processor
handle-IsSettled_example =
    handle-IsSettled lost row_of lost-LeavesRows lost-RepositoryLaws lost-NeverSkips stream
      stream-StreamLeavesRows default_options message_one job_one
      (record { world = new_row; trace = [] }) new_row (omega arith) message_one_reads refl
      (λ c dead. refl)

same_key : thumbnail_key (pos 7) (bytes "png") ≡ thumbnail_key (pos 7) (bytes "png")
same_key = refl

thumbnail_key_inj_example : pos 7 ≡ pos 7
thumbnail_key_inj_example =
    thumbnail_key_inj (pos 7) (pos 7) (bytes "png") (bytes "png") (omega arith) (omega arith)
      same_key
