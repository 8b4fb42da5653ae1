-- ===== src/Adapter/Laws.antt =====
-- internal/services/implementations/image_repository_adapter.go: the adapter is a repository as the
-- worker's theorems take it, over a database that does what the statements say.
use golang_helloworld.Prelude.{
  Option, ap, arith, if◌then◌else◌, inl, inr, none, refl, some, suc, zero, ℕ, ◌<◌, ◌==◌, ◌∙◌, ◌≡◌,
  ◌≢◌, ◌⊎◌,
}
use golang_helloworld.Text.Decimal.{ℤ}
use golang_helloworld.Queue.Failure.{Failure, Result, err, ok}
use golang_helloworld.Worker.Images.{
  Image, ProcessingResult, RepositoryLaws, Row, Status, Writes, with_result, with_status,
}
use golang_helloworld.Database.Writes.{
  Executed, affected, broken, complete_processing, executed, id_not_found, set_result, set_status,
  uncounted, update_status,
}
use golang_helloworld.Adapter.{
  Parts, adapter, after_tags, invalidate_after, invalidate_caches, with_tags,
}

-- The row `id` was written by `f`.
abbrev pub Written : {W : Type 0} → (ℤ → W → Option Row) → ℤ → (Row → Row) → W → W → Type 0
Written row id f w w' = (r : Row) × (row id w ≡ some r) × (row id w' ≡ some (f r))

-- What an UPDATE ... WHERE id = $1 does to the rows: it touches no other row; a count
-- above 0 means that the row was there and is written; and in any case it was written or not.
pub record Updates {W : Type 0} (row : ℤ → W → Option Row) (id : ℤ) (f : Row → Row) (w : W)
    (answer : Executed × W) : Type 0 where
  pub elsewhere : (j : ℤ) → j ≢ id → row j answer.1 ≡ row j w
  pub counted : (n : ℕ) → answer.0 ≡ affected n → 0 < n → Written row id f w answer.1
  pub uncertain : (row id answer.1 ≡ row id w) ⊎ Written row id f w answer.1

-- The database, and that the other parts leave the rows as they are.
pub record SqlLaws {W : Type 0} (a : Parts W) (row : ℤ → W → Option Row) : Type 0 where
  pub status_updates :
      (id : ℤ) (s : Status) (e : Option Failure) (w : W)
      → Updates row id (with_status s e) w (a.exec (set_status id s e) w)
  pub result_updates :
      (id : ℤ) (p : ProcessingResult) (w : W)
      → Updates row id (with_result p) w (a.exec (set_result id p) w)
  pub read_keeps : (id j : ℤ) (w : W) → row j (a.read id w).1 ≡ row j w
  pub read_reads :
      (id : ℤ) (w : W) (img : Image)
      → (a.read id w).0 ≡ ok img
      → (img.id ≡ id) × ((r : Row) × (row id w ≡ some r) × (img.status ≡ r.status))
  pub tags_keep :
      (get : ℤ → W → Option Failure × W)
      → a.get_image_tags ≡ some get
      → (id j : ℤ) (w : W) → row j (get id w).1 ≡ row j w
  pub caches_keep : (id j : ℤ) (w : W) → row j (invalidate_caches a.cache id w) ≡ row j w

counted_pos : (n : ℕ) (missing : Failure) → (if n == 0 then some missing else none) ≡ none → 0 < n
counted_pos zero missing h = absurd (cc h)
counted_pos (suc n) missing h = omega arith

module _ {W : Type 0} (row : ℤ → W → Option Row) where
  executed-Writes :
      (id : ℤ) (f : Row → Row) (w : W) (missing : Failure) (answer : Executed × W)
      → Updates row id f w answer
      → Writes row id f w (executed missing answer)
  executed-Writes id f w missing (broken e, w') u = record {
    elsewhere = u.elsewhere;
    written = λ h. absurd (cc h);
    not_written = u.uncertain;
  }
  executed-Writes id f w missing (uncounted e, w') u = record {
    elsewhere = u.elsewhere;
    written = λ h. absurd (cc h);
    not_written = u.uncertain;
  }
  executed-Writes id f w missing (affected n, w') u = record {
    elsewhere = u.elsewhere;
    written = λ h. u.counted n refl (counted_pos n missing h);
    not_written = u.uncertain;
  }

module _ {W : Type 0} (a : Parts W) (row : ℤ → W → Option Row) (sql : SqlLaws a row) where
  invalidate_after-Writes :
      (id : ℤ) (f : Row → Row) (w : W) (answer : Option Failure × W)
      → Writes row id f w answer
      → Writes row id f w (invalidate_after a.cache id answer)
  invalidate_after-Writes id f w (some e, w') h = h
  invalidate_after-Writes id f w (none, w') h =
      let kept = λ (j : ℤ). sql.caches_keep id j w' in
      record {
        elsewhere = λ j apart. kept j ∙ h.elsewhere j apart;
        written = λ e. let (r, before, after) = h.written e in (r, before, kept id ∙ after);
        not_written = elim (h.not_written) [
          | inl same ↦ inl (kept id ∙ same)
          | inr (r, before, after) ↦ inr (r, before, kept id ∙ after)
        ];
      }

  after_tags-keeps :
      (img : Image) (j : ℤ) (answer : Option Failure × W)
      → row j (after_tags img answer).1 ≡ row j answer.1
  after_tags-keeps img j (some e, w) = refl
  after_tags-keeps img j (none, w) = refl

  after_tags-reads :
      (img got : Image) (answer : Option Failure × W)
      → (after_tags img answer).0 ≡ ok got
      → img ≡ got
  after_tags-reads img got (some e, w) h = absurd (cc h)
  after_tags-reads img got (none, w) h = cc h

  with_tags-keeps :
      (tags : Option (ℤ → W → Option Failure × W)) (id j : ℤ) (answer : Result Image × W)
      → a.get_image_tags ≡ tags
      → row j (with_tags tags id answer).1 ≡ row j answer.1
  with_tags-keeps tags id j (err e, w) same = refl
  with_tags-keeps none id j (ok img, w) same = refl
  with_tags-keeps (some get) id j (ok img, w) same =
      after_tags-keeps img j (get id w) ∙ sql.tags_keep get same id j w

  with_tags-reads :
      (tags : Option (ℤ → W → Option Failure × W)) (id : ℤ) (answer : Result Image × W)
      (got : Image)
      → (with_tags tags id answer).0 ≡ ok got
      → answer.0 ≡ ok got
  with_tags-reads tags id (err e, w) got h = absurd (cc h)
  with_tags-reads none id (ok img, w) got h = h
  with_tags-reads (some get) id (ok img, w) got h = ap ok (after_tags-reads img got (get id w) h)

  -- Over a database whose statements do to the rows what they say, and with tags and caches beside it
  -- that leave the rows alone, the adapter obeys the laws by which the worker takes its repository: a
  -- read gives the row, and a write that succeeds has written its own row and no other.
  pub adapter-RepositoryLaws : RepositoryLaws (adapter a) row
  unfolding update_status complete_processing
  adapter-RepositoryLaws = record {
    get_keeps =
        λ id j w. with_tags-keeps a.get_image_tags id j (a.read id w) refl ∙ sql.read_keeps id j w;
    get_reads = λ id w img h.
        sql.read_reads id w img (with_tags-reads a.get_image_tags id (a.read id w) img h);
    update_status_writes = λ id s e w.
        invalidate_after-Writes id (with_status s e) w (update_status a.exec id s e w) (
          executed-Writes row id (with_status s e) w (id_not_found id)
            (a.exec (set_status id s e) w) (sql.status_updates id s e w));
    complete_processing_writes = λ id p w.
        invalidate_after-Writes id (with_result p) w (complete_processing a.exec id p w) (
          executed-Writes row id (with_result p) w (id_not_found id) (a.exec (set_result id p) w)
            (sql.result_updates id p w));
  }
