-- ===== src/Web/Format.antt =====
-- internal/web/handlers/api.go: formatFileSize. The quotient of the two float64 numbers is kept as the
-- pair of them.
use golang_helloworld.Prelude.{
  List, Option, [], ap, arith, dec_lt, get_elem?, if◌then◌else◌, inl, inr, leb, ltb, none, refl,
  some, subst, suc, sym, zero, ℕ, ◌*◌, ◌++◌, ◌/◌, ◌<◌, ◌==◌, ◌^◌, ◌∙◌, ◌∷◌, ◌≡◌, ◌≤◌, ◌⊎◌,
}
use golang_helloworld.Text.{Str, bytes}
use golang_helloworld.Text.Decimal.{itoa, negsuc, pos, ℤ}

-- The loop, on the quotient, div and exp. An int64 is below 1024 ^ 7, so 7 rounds of fuel are enough.
unfoldable pub size_loop : ℕ → ℕ → ℕ → ℕ → Option (ℕ × ℕ)
size_loop zero n div exp = none
size_loop (suc fuel) n div exp =
    let rest = size_loop fuel (n / 1024) (div * 1024) (suc exp) in
    if leb 1024 n then rest else some (div, exp)

abbrev pub units : List Str
units = bytes "KB" ∷ bytes "MB" ∷ bytes "GB" ∷ bytes "TB" ∷ []

-- A text, a quotient with its unit, or the panic of an index that is out of range.
pub data Formatted : Type 0 where
  text : Str → Formatted
  scaled : ℕ → ℕ → Str → Formatted
  index_panics out_of_fuel : Formatted

abbrev pub with_unit : ℕ → ℕ → Option Str → Formatted
with_unit n div none = index_panics
with_unit n div (some unit) = scaled n div unit

abbrev pub formatted : ℕ → Option (ℕ × ℕ) → Formatted
formatted n none = out_of_fuel
formatted n (some (div, exp)) = with_unit n div (get_elem? units exp)

unfoldable pub format_file_size : ℤ → Formatted
unfolding size_loop
format_file_size (negsuc n) = text (itoa (negsuc n) ++ bytes " B")
format_file_size (pos n) =
    if n == 0
    then text (bytes "0 Bytes")
    else if ltb n 1024
    then text (itoa (pos n) ++ bytes " B")
    else formatted n (size_loop 7 (n / 1024) 1024 0)

-- A divisor and its unit.
abbrev pub IsUnit : ℕ → Str → Type 0
IsUnit div unit =
    ((div ≡ 1024) × (unit ≡ bytes "KB"))
    ⊎ (((div ≡ 1024 ^ 2) × (unit ≡ bytes "MB"))
        ⊎ (((div ≡ 1024 ^ 3) × (unit ≡ bytes "GB")) ⊎ ((div ≡ 1024 ^ 4) × (unit ≡ bytes "TB"))))

one_round :
    (fuel n div exp : ℕ)
    → 1024 ≤ n
    → size_loop (suc fuel) n div exp ≡ size_loop fuel (n / 1024) (div * 1024) (suc exp)
unfolding size_loop
one_round fuel n div exp more = ground arith

last_round : (fuel n div exp : ℕ) → n < 1024 → size_loop (suc fuel) n div exp ≡ some (div, exp)
unfolding size_loop
last_round fuel n div exp few = ground arith

abbrev pub IsScaled : ℕ → Formatted → Type 0
IsScaled b shown =
    (div : ℕ) × (unit : Str) × (shown ≡ scaled b div unit)
    × IsUnit div unit
    × (div ≤ b)
    × (b < div * 1024)

-- The rounds of the loop that are sure to be made, for a size of at least 1024 ^ 2, 3 and so on.
two_rounds :
    (b : ℕ)
    → 1024 ^ 2 ≤ b
    → size_loop 7 (b / 1024) 1024 0 ≡ size_loop 6 (b / 1024 / 1024) (1024 * 1024) 1
two_rounds b h = one_round 6 (b / 1024) 1024 0 (omega arith)

three_rounds :
    (b : ℕ)
    → 1024 ^ 3 ≤ b
    → size_loop 7 (b / 1024) 1024 0 ≡ size_loop 5 (b / 1024 / 1024 / 1024) (1024 * 1024 * 1024) 2
three_rounds b h =
    two_rounds b (omega arith) ∙ one_round 5 (b / 1024 / 1024) (1024 * 1024) 1 (omega arith)

four_rounds :
    (b : ℕ)
    → 1024 ^ 4 ≤ b
    → size_loop 7 (b / 1024) 1024 0
      ≡ size_loop 4 (b / 1024 / 1024 / 1024 / 1024) (1024 * 1024 * 1024 * 1024) 3
four_rounds b h =
    three_rounds b (omega arith)
    ∙ one_round 4 (b / 1024 / 1024 / 1024) (1024 * 1024 * 1024) 2 (omega arith)

IsScaled-below :
    (b : ℕ) → 1024 ≤ b → b < 1024 ^ 5 → IsScaled b (formatted b (size_loop 7 (b / 1024) 1024 0))
IsScaled-below b low high = elim (dec_lt b (1024 ^ 2)) [
  | yes k ↦ (
    1024,
    bytes "KB",
    ap (formatted b) (last_round 6 (b / 1024) 1024 0 (omega arith)),
    inl (refl, refl),
    low,
    omega arith,
  )
  | no k ↦ elim (dec_lt b (1024 ^ 3)) [
    | yes m ↦ (
      1024 ^ 2,
      bytes "MB",
      ap (formatted b) (
          two_rounds b (omega arith)
          ∙ last_round 5 (b / 1024 / 1024) (1024 * 1024) 1 (omega arith)),
      inr (inl (refl, refl)),
      omega arith,
      omega arith,
    )
    | no m ↦ elim (dec_lt b (1024 ^ 4)) [
      | yes g ↦ (
        1024 ^ 3,
        bytes "GB",
        ap (formatted b) (
            three_rounds b (omega arith)
            ∙ last_round 4 (b / 1024 / 1024 / 1024) (1024 * 1024 * 1024) 2 (omega arith)),
        inr (inr (inl (refl, refl))),
        omega arith,
        omega arith,
      )
      | no g ↦ (
        1024 ^ 4,
        bytes "TB",
        ap (formatted b) (
            four_rounds b (omega arith)
            ∙ last_round 3 (b / 1024 / 1024 / 1024 / 1024) (1024 * 1024 * 1024 * 1024) 3
                (omega arith)),
        inr (inr (inr (refl, refl))),
        omega arith,
        omega arith,
      )
    ]
  ]
]

large : (b : ℕ) → 1024 ≤ b → format_file_size (pos b) ≡ formatted b (size_loop 7 (b / 1024) 1024 0)
unfolding format_file_size
large b h = ground arith

five_rounds :
    (b : ℕ)
    → 1024 ^ 5 ≤ b
    → size_loop 7 (b / 1024) 1024 0
      ≡ size_loop 3 (b / 1024 / 1024 / 1024 / 1024 / 1024) (1024 * 1024 * 1024 * 1024 * 1024) 4
five_rounds b h =
    four_rounds b (omega arith)
    ∙ one_round 3 (b / 1024 / 1024 / 1024 / 1024) (1024 * 1024 * 1024 * 1024) 3 (omega arith)

panics :
    (b : ℕ) → 2 ^ 50 ≤ b → b < 2 ^ 63 → formatted b (size_loop 7 (b / 1024) 1024 0) ≡ index_panics
panics b low high =
    let n = b / 1024 / 1024 / 1024 / 1024 / 1024 in
    let div = 1024 * 1024 * 1024 * 1024 * 1024 in
    ap (formatted b) (five_rounds b (omega arith)) ∙ elim (dec_lt n 1024) [
      | yes few ↦ ap (formatted b) (last_round 2 n div 4 few)
      | no more ↦
          ap (formatted b) (
            one_round 2 n div 4 (omega arith)
            ∙ last_round 1 (n / 1024) (div * 1024) 5 (omega arith))
    ]

-- A size from 1024 bytes on, below 2 ^ 50, is shown with a unit whose divisor is at most the size
-- and more than a 1024th of it; from there on, for a size that fits an int64, the index into the
-- units panics.
pub format_file_size-IsScaled :
    (b : ℕ)
    → 1024 ≤ b
    → b < 2 ^ 63
    → ((b < 2 ^ 50) × IsScaled b (format_file_size (pos b)))
      ⊎ ((2 ^ 50 ≤ b) × (format_file_size (pos b) ≡ index_panics))
format_file_size-IsScaled b low fits = elim (dec_lt b (2 ^ 50)) [
  | yes small ↦
      inl (small, subst (IsScaled b) (sym (large b low)) (IsScaled-below b low (omega arith)))
  | no big ↦ inr (omega arith, large b low ∙ panics b (omega arith) fits)
]
