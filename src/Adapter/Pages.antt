-- ===== src/Adapter/Pages.antt =====
-- The pages of a listing, from the request of internal/domain/image/models.go through
-- image_repository_adapter.go to the limit of internal/platform/database/models.go.
use native.Mathlib.Nat.{div-add-mod'}
use golang_helloworld.Prelude.{
  [], ap, arith, false, if◌then◌else◌, ltb, sym, ℕ, ◌%◌, ◌*◌, ◌+◌, ◌/◌, ◌<◌, ◌^◌, ◌↔◌, ◌∙◌, ◌≡◌,
  ◌≤◌,
}
use golang_helloworld.Text.Decimal.{pos}
use golang_helloworld.Domain.Paging.{get_offset, has_next_page-get_offset}
use golang_helloworld.Gallery.Cached.{ListRequest}
use golang_helloworld.Database.{Pagination, validate_pagination}
use golang_helloworld.Adapter.Listing.{pagination_of}

-- The image with the number `i`, counted from 0, is among those that a statement gives.
abbrev pub Shows : Pagination → ℕ → Type 0
Shows p i = (o : ℕ) × (l : ℕ) × (p.offset ≡ pos o) × (p.limit ≡ pos l) × (o ≤ i) × (i < o + l)

abbrev pub page_of : ℕ → ℕ → ListRequest
page_of page size = record {
  page = pos page;
  page_size = pos size;
  tag = [];
  tags = [];
  match_all = false;
}

capped : ℕ → ℕ
capped size = if ltb 50 size then 50 else size

validated :
    (o size : ℕ)
    → 1 ≤ size
    → validate_pagination (record { offset = pos o; limit = pos size })
      ≡ record { offset = pos o; limit = pos (capped size) }
unfolding validate_pagination capped
validated o size some_size = ground arith

one_size : (p size : ℕ) → size ≤ (p + 1) * size
one_size p size = omega arith

window :
    (p size : ℕ)
    → 1 ≤ size
    → (p + 1) * size < 2 ^ 63
    → validate_pagination (pagination_of (page_of (p + 1) size))
      ≡ record { offset = pos (p * size); limit = pos (capped size) }
unfolding get_offset
window p size some_size fits =
    let bound = one_size p size in
    ap (λ o. validate_pagination (record { offset = o; limit = pos size }))
      (has_next_page-get_offset p size 0 [] some_size (omega arith) fits).0
    ∙ validated (p * size) size some_size

pos-injective : {m n : ℕ} → pos m ≡ pos n → m ≡ n
pos-injective e = cc

on_page :
    (p size i : ℕ)
    → 1 ≤ size
    → p * size ≤ i
    → i < p * size + capped size
    → (p ≡ i / size) × (i % size < 50)
unfolding capped
on_page p size i some_size low high = grind arith

from_page :
    (p size i : ℕ)
    → 1 ≤ size
    → p ≡ i / size
    → i % size < 50
    → (p * size ≤ i) × (i < p * size + capped size)
unfolding capped
from_page p size i some_size here near =
    let whole = div-add-mod' i size in
    let rest : i % size < size = grind arith in
    let same : p * size ≡ i / size * size = ap (λ n. n * size) here in
    ground (arith, whole, rest, same)

-- The listing shows image number `i` on page `p + 1` exactly if `p` is `i / size` and `i % size` is
-- below 50: with pages of more than 50 images, those in the rest of each page are on none. The page
-- has a size of at least 1, and the arithmetic stays below 2 ^ 63.
pub Shows-page :
    (p size i : ℕ)
    → 1 ≤ size
    → (p + 1) * size < 2 ^ 63
    → Shows (validate_pagination (pagination_of (page_of (p + 1) size))) i
      ↔ ((p ≡ i / size) × (i % size < 50))
Shows-page p size i some_size fits =
    let e = window p size some_size fits in
    (
      λ (o, l, at_o, at_l, low, high).
          let same_o = pos-injective (sym (ap (λ q. q.offset) e) ∙ at_o) in
          let same_l = pos-injective (sym (ap (λ q. q.limit) e) ∙ at_l) in
          on_page p size i some_size (omega arith) (omega arith),
      λ h.
          let (low, high) = from_page p size i some_size h.0 h.1 in
          (p * size, capped size, ap (λ q. q.offset) e, ap (λ q. q.limit) e, low, high),
    )
