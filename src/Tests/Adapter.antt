-- ===== src/Tests/Adapter.antt =====
-- internal/services/implementations: the adapter over a table with one row, the tags over a table with
-- one name, and instances of the theorems.
use golang_helloworld.Prelude.{
  Bool-cases, Option, ap, arith, if◌then◌else◌, inl, inr, none, refl, some, suc, sym, zero, ℕ, ◌%◌,
  ◌+◌, ◌/◌, ◌<◌, ◌↔◌, ◌∙◌, ◌≡◌, ◌≢◌,
}
use golang_helloworld.Text.{Str, bytes, str_eq}
use golang_helloworld.Text.Utf8.{
  continued, decode_rune, runes, runes_after, starts, valid_after, valid_string,
}
use golang_helloworld.Text.Decimal.{negsuc, pos, ℤ}
use golang_helloworld.Queue.Failure.{Failure}
use golang_helloworld.Worker.Images.{RepositoryLaws, Row, with_result, with_status}
use golang_helloworld.Domain.Tag.{validate_tag}
use golang_helloworld.Database.Reads.{Single, no_rows, row_found}
use golang_helloworld.Database.Writes.{
  Executed, Statement, affected, delete_path, delete_row, set_result, set_status, set_thumbnail,
}
use golang_helloworld.Database.{validate_pagination}
use golang_helloworld.Adapter.{Parts, adapter}
use golang_helloworld.Adapter.Laws.{SqlLaws, Updates, adapter-RepositoryLaws}
use golang_helloworld.Adapter.Listing.{DomainTag, pagination_of}
use golang_helloworld.Adapter.Pages.{Shows, Shows-page, page_of}
use golang_helloworld.Adapter.Tags.{TagLaws, TagServer, get_or_create}
use golang_helloworld.Adapter.Tags.Again.{get_or_create-again}
use golang_helloworld.Tests.Worker.{find, find_keeps, find_reads, row_of}

-- The row of image 1 is written, and no other is there.
abbrev write_one : (Row → Row) → ℤ → Row → Executed × Row
write_one f (pos (suc zero)) r = (affected 1, f r)
write_one f _ r = (affected 0, r)

abbrev exec_one : Statement → Row → Executed × Row
exec_one (set_status id s e) r = write_one (with_status s e) id r
exec_one (set_result id p) r = write_one (with_result p) id r
exec_one (set_thumbnail id path) r = write_one (λ s. s) id r
exec_one (delete_row id) r = (affected 0, r)
exec_one (delete_path path) r = (affected 0, r)

abbrev one_row : Parts Row
one_row = record {
  exec = exec_one;
  read = find;
  get_image_tags = some (λ id r. (none, r));
  cache = some (record { invalidate_image_lists = λ r. r; delete_image = λ id r. r });
}

none_counted : {P : Type 0} (n : ℕ) → affected 0 ≡ affected n → 0 < n → P
none_counted n e h = ground (arith, e, h)

write_one-Updates : (f : Row → Row) (id : ℤ) (r : Row) → Updates row_of id f r (write_one f id r)
write_one-Updates f (pos (suc zero)) r = record {
  elsewhere = only_one;
  counted = λ n e h. (r, refl, refl);
  uncertain = inr (r, refl, refl);
}
  where
    only_one : (j : ℤ) → j ≢ pos 1 → row_of j (f r) ≡ row_of j r
    only_one (pos zero) h = refl
    only_one (pos (suc zero)) h = absurd (h refl)
    only_one (pos (suc (suc n))) h = refl
    only_one (negsuc n) h = refl
write_one-Updates f (pos zero) r = record {
  elsewhere = λ j h. refl;
  counted = λ n e h. none_counted n e h;
  uncertain = inl refl;
}
write_one-Updates f (pos (suc (suc m))) r = record {
  elsewhere = λ j h. refl;
  counted = λ n e h. none_counted n e h;
  uncertain = inl refl;
}
write_one-Updates f (negsuc m) r = record {
  elsewhere = λ j h. refl;
  counted = λ n e h. none_counted n e h;
  uncertain = inl refl;
}

some-inj : {A : Type 0} (a b : A) → some a ≡ some b → a ≡ b
some-inj a b e = cc

one_row-SqlLaws : SqlLaws one_row row_of
one_row-SqlLaws = record {
  status_updates = λ id s e w. write_one-Updates (with_status s e) id w;
  result_updates = λ id p w. write_one-Updates (with_result p) id w;
  read_keeps = λ id j w. ap (row_of j) (find_keeps id w);
  read_reads = find_reads;
  tags_keep = λ get e id j w.
      ap (λ (g : ℤ → Row → Option Failure × Row). row_of j (g id w).1)
        (sym (some-inj (λ id r. (none, r)) get e));
  caches_keep = λ id j w. refl;
}

adapter-RepositoryLaws_example : RepositoryLaws (adapter one_row) row_of
adapter-RepositoryLaws_example = adapter-RepositoryLaws one_row row_of one_row-SqlLaws

-- With pages of 100 images, image 130 is on page 2.
Shows-page_example :
    Shows (validate_pagination (pagination_of (page_of (1 + 1) 100))) 130
    ↔ ((1 ≡ 130 / 100) × (130 % 100 < 50))
Shows-page_example = Shows-page 1 100 130 (omega arith) (omega arith)

abbrev sea : Str
sea = bytes "sea"

abbrev rows_of_sea : Option DomainTag → Str → Option DomainTag
rows_of_sea w name = if str_eq name sea then w else none

abbrev found_tag : Option DomainTag → Single DomainTag
found_tag none = no_rows
found_tag (some tag) = row_found tag

abbrev stored_tag : Str → ℤ → DomainTag
stored_tag name now = record { tag_id = pos 1; name = name; tag_created_at = now }

-- A table that takes one tag, under the name "sea".
abbrev tag_table : TagServer (Option DomainTag)
tag_table = record {
  insert_tag = λ name now w.
      if str_eq name sea then (some (pos 1), some (stored_tag name now)) else (none, w);
  select_tag = λ name w. (found_tag (rows_of_sea w name), w);
  now = λ w. pos 7;
}

tag_table-TagLaws : TagLaws tag_table rows_of_sea
tag_table-TagLaws = record {
  select_reads = λ name tag w here. rw here refl;
  select_found = λ name tag w w' e. selected (rows_of_sea w name) name tag w w' refl e;
  insert_writes = inserted;
}
  where
    selected :
        (o : Option DomainTag) (name : Str) (tag : DomainTag) (w w' : Option DomainTag)
        → rows_of_sea w name ≡ o
        → ◌≡◌ {A = Single DomainTag × Option DomainTag} (found_tag o, w) (row_found tag, w')
        → rows_of_sea w' name ≡ some tag
    selected none name tag w w' at_name e = absurd (cc (ap (λ a. a.0) e))
    selected (some t) name tag w w' at_name e =
        let same : t ≡ tag = cc (ap (λ a. a.0) e) in
        ap (λ v. rows_of_sea v name) (sym (ap (λ a. a.1) e)) ∙ at_name ∙ ap some same

    inserted :
        (name : Str) (now id : ℤ) (w w' : Option DomainTag)
        → tag_table.insert_tag name now w ≡ (some id, w')
        → (tag : DomainTag) × (rows_of_sea w' name ≡ some tag) × (tag.tag_id ≡ id)
    inserted name now id w w' e = elim (Bool-cases (str_eq name sea)) [
      | inl here ↦
          let e' : ◌≡◌ {A = Option ℤ × Option DomainTag} (some (pos 1), some (stored_tag name now))
              (some id, w') =
            rw here at e in
          (
            stored_tag name now,
            rw here (ap (λ a. a.1) (sym e')),
            some-inj (pos 1) id (ap (λ a. a.0) e'),
          )
      | inr differs ↦
          let e' : ◌≡◌ {A = Option ℤ × Option DomainTag} (none, w) (some id, w') =
            rw differs at e in
          absurd (cc (ap (λ a. a.0) e'))
    ]

get_or_create-again_example :
    (row : DomainTag) × (get_or_create tag_table sea (some (stored_tag sea (pos 7)))
      ≡ (inr row, some (stored_tag sea (pos 7))))
    × (row.tag_id ≡ pos 1)
unfolding get_or_create validate_tag str_eq valid_string valid_after starts runes runes_after
    decode_rune continued
get_or_create-again_example =
    get_or_create-again tag_table rows_of_sea tag_table-TagLaws b's' (bytes "ea") none
      (some (stored_tag sea (pos 7))) (stored_tag sea (pos 7)) refl
