-- ===== src/Domain/Paging.antt =====
-- internal/domain/image/models.go: the pages of a listing. Go ints are 64-bit words in two's
-- complement.
use native.Mathlib.Nat.{le-div_iff_mul-le, mod-eq_of_lt}
use golang_helloworld.Prelude.{
  Bool, Option, [], ap, arith, false, if◌then◌else◌, length, ltb, ltb→lt, lt→ltb, none, not, suc,
  true, zero, ℕ, ◌%◌, ◌*◌, ◌+◌, ◌-◌, ◌/◌, ◌<◌, ◌^◌, ◌||◌, ◌↔◌, ◌∙◌, ◌∷◌, ◌≡◌, ◌≤◌,
}
use golang_helloworld.Text.{Str}
use golang_helloworld.Text.Utf8.{valid_string}
use golang_helloworld.Text.Decimal.{negsuc, pos, ℤ}
use golang_helloworld.Domain.{
  DomainError, above, below, first_refusal, invalid_pagination, invalid_tag_name, max_tag_name_len,
  refuse_if,
}

-- The word of an int, and back.
abbrev pub word : ℤ → ℕ
word (pos n) = n % 2 ^ 64
word (negsuc n) = (2 ^ 64 - 1) - n % 2 ^ 64

abbrev pub from_word : ℕ → ℤ
from_word n = if ltb n (2 ^ 63) then pos n else negsuc ((2 ^ 64 - 1) - n)

abbrev pub add_int : ℤ → ℤ → ℤ
add_int a b = from_word ((word a + word b) % 2 ^ 64)

abbrev pub mul_int : ℤ → ℤ → ℤ
mul_int a b = from_word ((word a * word b) % 2 ^ 64)

-- The fields that these methods read.
pub record ListImagesRequest : Type 0 where
  pub page : ℤ
  pub page_size : ℤ
  pub tag : Str

pub record ListImagesResponse : Type 0 where
  pub total_count : ℤ
  pub page : ℤ
  pub page_size : ℤ
  pub total_pages : ℤ

abbrev pub max_page_size : ℕ
max_page_size = 100

abbrev pub default_page_size : ℕ
default_page_size = 20

abbrev pub validate_filter : Str → Option DomainError
validate_filter [] = none
validate_filter (b ∷ s) = first_refusal (
    refuse_if (ltb max_tag_name_len (length (b ∷ s))) invalid_tag_name
    ∷ refuse_if (not (valid_string (b ∷ s))) invalid_tag_name
    ∷ [])

unfoldable pub validate_list : ListImagesRequest → Option DomainError
validate_list r = first_refusal (
    refuse_if (below r.page 1) invalid_pagination
    ∷ refuse_if (below r.page_size 1 || above r.page_size max_page_size) invalid_pagination
    ∷ validate_filter r.tag
    ∷ [])

abbrev pub or_default : ℤ → ℕ → ℤ
or_default (pos zero) d = pos d
or_default n d = n

unfoldable pub set_defaults : ListImagesRequest → ListImagesRequest
set_defaults r = record r {
  page = or_default r.page 1;
  page_size = or_default r.page_size default_page_size;
}

unfoldable pub get_offset : ListImagesRequest → ℤ
get_offset r = mul_int (add_int r.page (negsuc 0)) r.page_size

-- Go's division of ints, which truncates towards 0; a zero divisor does not get here.
abbrev pub quotient : ℤ → ℕ → ℤ
quotient (pos n) d = pos (n / d)
quotient (negsuc n) d = negated ((n + 1) / d)
  where
    negated : ℕ → ℤ
    negated zero = pos 0
    negated (suc m) = negsuc m

abbrev pub total_pages_of : ℤ → ℤ → ℤ
total_pages_of total (pos zero) = pos 0
total_pages_of total (pos (suc n)) =
    quotient (add_int (add_int total (pos (suc n))) (negsuc 0)) (suc n)
total_pages_of total (negsuc n) = pos 0

unfoldable pub calculate_total_pages : ListImagesResponse → ListImagesResponse
calculate_total_pages r = record r { total_pages = total_pages_of r.total_count r.page_size }

-- Signed comparison.
abbrev pub less : ℤ → ℤ → Bool
less (pos a) (pos b) = ltb a b
less (pos a) (negsuc b) = false
less (negsuc a) (pos b) = true
less (negsuc a) (negsuc b) = ltb b a

unfoldable pub has_next_page : ListImagesResponse → Bool
has_next_page r = less r.page r.total_pages

unfoldable pub has_prev_page : ListImagesResponse → Bool
has_prev_page r = less (pos 1) r.page

-- Arithmetic that stays in range is the plain one.
from_word_small : (n : ℕ) → n < 2 ^ 63 → from_word (n % 2 ^ 64) ≡ pos n
from_word_small n h = ground arith

minus_one : (n : ℕ) → n < 2 ^ 63 → add_int (pos (suc n)) (negsuc 0) ≡ pos n
minus_one n h = ground arith

p_small : (p s : ℕ) → p ≤ p * suc s
p_small p s = omega (arith, mul_out p s)
  where
    mul_out : (p s : ℕ) → p * suc s ≡ p + p * s
    mul_out p s = omega arith

pages_of_total :
    (total s : ℕ)
    → total + suc s < 2 ^ 63
    → total_pages_of (pos total) (pos (suc s)) ≡ pos ((total + s) / suc s)
pages_of_total total s h =
    let sum : add_int (pos total) (pos (suc s)) ≡ pos (suc (total + s)) = ground arith in
    ap (λ n. quotient n (suc s))
      (ap (λ x. add_int x (negsuc 0)) sum ∙ minus_one (total + s) (omega arith))

pub mul_int_small :
    (p s : ℕ) → p < 2 ^ 63 → s < 2 ^ 63 → p * s < 2 ^ 63 → mul_int (pos p) (pos s) ≡ pos (p * s)
mul_int_small p s hp hs h =
    ap (λ x. from_word (x % 2 ^ 64)) (ap2 (mod-eq_of_lt (omega arith)) (mod-eq_of_lt (omega arith)))
    ∙ from_word_small (p * s) h
  where
    ap2 : {a b c d : ℕ} → a ≡ c → b ≡ d → a * b ≡ c * d
    ap2 e f i = e i * f i

abbrev pub request_for : ℕ → ℕ → Str → ListImagesRequest
request_for page size tag = record { page = pos page; page_size = pos size; tag = tag }

abbrev pub response_for : ℕ → ℕ → ℕ → ListImagesResponse
response_for total page size =
    calculate_total_pages (record {
      total_count = pos total;
      page = pos page;
      page_size = pos size;
      total_pages = pos 0;
    })

-- For a page size of at least 1 and while the arithmetic stays below 2 ^ 63: the offset of page
-- `p + 1` is `p * size`, and that page has a successor just when its own end lies before the end of
-- the listing.
pub has_next_page-get_offset :
    (p size total : ℕ) (tag : Str)
    → 1 ≤ size
    → total + size < 2 ^ 63
    → (p + 1) * size < 2 ^ 63
    → (get_offset (request_for (p + 1) size tag) ≡ pos (p * size))
      × ((has_next_page (response_for total (p + 1) size) ≡ true) ↔ ((p + 1) * size < total))
unfolding get_offset has_next_page calculate_total_pages
has_next_page-get_offset p zero total tag some_size fits ends = absurd (omega arith)
has_next_page-get_offset p (suc s) total tag some_size fits ends =
    let small : p ≤ p * suc s = p_small p s in
    let (ahead, back) =
      le-div_iff_mul-le {k = suc s} {x = suc (p + 1)} {y = total + s} (omega arith) in
    (
      ap (λ x. mul_int x (pos (suc s))) (minus_one' p (omega arith))
          ∙ mul_int_small p (suc s) (omega arith) (omega arith) (omega arith),
      rw (pages_of_total total s fits) (
        λ h. omega (arith, ahead (ltb→lt (p + 1) ((total + s) / suc s) h)),
        λ h. lt→ltb (p + 1) ((total + s) / suc s) (back (omega arith)),
      ),
    )
  where
    minus_one' : (n : ℕ) → n < 2 ^ 63 → add_int (pos (n + 1)) (negsuc 0) ≡ pos n
    minus_one' n h = ground arith
