-- ===== src/Text/Utf8.antt =====
-- unicode/utf8 as Go has it: the runes that `range` reads from a string, and utf8.ValidString.
use golang_helloworld.Prelude.{
  All, Bool, Bool-cases, List, Option, Option-cases, [], ap, arith, false, if◌then◌else◌, inl, inr,
  leb, length, ltb, lt→ltb, none, refl, some, suc, true, zero, ℕ, ◌&&◌, ◌*◌, ◌+◌, ◌-◌, ◌<◌, ◌==◌,
  ◌∷◌, ◌≡◌, ◌≤◌,
}
use golang_helloworld.Text.{Str}

-- The bytes that may stand in a place, both ends included.
abbrev pub Range : Type 0
Range = ℕ × ℕ

abbrev pub in_range : Range → ℕ → Bool
in_range (low, high) b = leb low b && leb b high

abbrev pub tail_byte : Range
tail_byte = (128, 191)

-- What a first byte starts: its bits of the rune, and the ranges of the bytes that follow.
unfoldable pub starts : ℕ → Option (ℕ × List Range)
starts b =
    if ltb b 128
    then some (b, [])
    else if in_range (194, 223) b
    then some (b - 192, tail_byte ∷ [])
    else if b == 224
    then some (0, (160, 191) ∷ tail_byte ∷ [])
    else if b == 237
    then some (13, (128, 159) ∷ tail_byte ∷ [])
    else if in_range (225, 239) b
    then some (b - 224, tail_byte ∷ tail_byte ∷ [])
    else if b == 240
    then some (0, (144, 191) ∷ tail_byte ∷ tail_byte ∷ [])
    else if b == 244
    then some (4, (128, 143) ∷ tail_byte ∷ tail_byte ∷ [])
    else if in_range (241, 243) b
    then some (b - 240, tail_byte ∷ tail_byte ∷ tail_byte ∷ [])
    else none

-- The rune, if the bytes that follow are in their ranges.
unfoldable pub continued : ℕ → List Range → Str → Option ℕ
continued bits [] s = some bits
continued bits (r ∷ rs) [] = none
continued bits (r ∷ rs) (b ∷ s) =
    let rest = continued (bits * 64 + (b - 128)) rs s in if in_range r b then rest else none

abbrev pub rune_error : ℕ
rune_error = 65533

-- A first byte and what follows it: the rune and its size, or the error rune and size 1.
unfoldable pub decode_rune : ℕ → Str → ℕ × ℕ
decode_rune b s = elim (starts b) [
  | none ↦ (rune_error, 1)
  | some (bits, rs) ↦ elim (continued bits rs s) [
    | none ↦ (rune_error, 1)
    | some rune ↦ (rune, 1 + length rs)
  ]
]

-- The runes of a string, once the first bytes are skipped.
unfoldable pub runes_after : ℕ → Str → List ℕ
runes_after k [] = []
runes_after (suc k) (b ∷ s) = runes_after k s
runes_after zero (b ∷ s) = let (rune, size) = decode_rune b s in rune ∷ runes_after (size - 1) s

unfoldable pub runes : Str → List ℕ
runes s = runes_after 0 s

-- utf8.ValidString, with the ranges of the bytes that have to come next.
unfoldable pub valid_after : List Range → Str → Bool
valid_after [] [] = true
valid_after (r ∷ rs) [] = false
valid_after [] (b ∷ s) = elim (starts b) [ none ↦ false | some (bits, rs) ↦ valid_after rs s ]
valid_after (r ∷ rs) (b ∷ s) = in_range r b && valid_after rs s

unfoldable pub valid_string : Str → Bool
valid_string s = valid_after [] s

pub starts_ascii : (b : ℕ) → b < 128 → starts b ≡ some (b, [])
unfolding starts
starts_ascii b h = rw (lt→ltb b 128 h) refl

-- A string of ASCII bytes is valid, and its runes are its bytes.
valid_after-ascii : (s : Str) → All (λ b. b < 128) s → valid_after [] s ≡ true
unfolding valid_after
valid_after-ascii [] h = refl
valid_after-ascii (b ∷ s) h = rw (starts_ascii b h.0, valid_after) (valid_after-ascii s h.1)

pub valid_string-ascii : (s : Str) → All (λ b. b < 128) s → valid_string s ≡ true
unfolding valid_string
valid_string-ascii = valid_after-ascii

runes_after-ascii : (s : Str) → All (λ b. b < 128) s → runes_after 0 s ≡ s
unfolding runes_after decode_rune continued
runes_after-ascii [] h = refl
runes_after-ascii (b ∷ s) h =
    rw (starts_ascii b h.0, decode_rune, runes_after, continued)
      (ap (◌∷◌ b) (runes_after-ascii s h.1))

pub runes-ascii : (s : Str) → All (λ b. b < 128) s → runes s ≡ s
unfolding runes
runes-ascii = runes_after-ascii

-- The least rune that the ranges allow.
abbrev least : ℕ → List Range → ℕ
least bits [] = bits
least bits (r ∷ rs) = least (bits * 64 + (r.0 - 128)) rs

least_mono : (a b : ℕ) (rs : List Range) → a ≤ b → least a rs ≤ least b rs
least_mono a b [] h = h
least_mono a b (r ∷ rs) h =
    least_mono (a * 64 + (r.0 - 128)) (b * 64 + (r.0 - 128)) rs (omega arith)

continued-least :
    (bits : ℕ) (rs : List Range) (s : Str) (rune : ℕ)
    → continued bits rs s ≡ some rune
    → least bits rs ≤ rune
unfolding continued
continued-least bits [] s rune e = ground arith
continued-least bits (r ∷ rs) [] rune e = ground arith
continued-least bits ((low, high) ∷ rs) (b ∷ s) rune e =
    elim (Bool-cases (in_range (low, high) b)) [
      | inr out ↦ absurd (ground (arith, out))
      | inl fits ↦
          let ih = continued-least (bits * 64 + (b - 128)) rs s rune (ground (arith, fits)) in
          let above : low ≤ b = ground arith in
          omega (
            arith,
            ih,
            least_mono (bits * 64 + (low - 128)) (bits * 64 + (b - 128)) rs (omega arith),
          )
    ]

starts_high :
    (b bits : ℕ) (rs : List Range) → 128 ≤ b → starts b ≡ some (bits, rs) → 128 ≤ least bits rs
unfolding starts
starts_high b bits rs h e = ground arith

pub decode_rune_low : (b : ℕ) (s : Str) → b < 128 → decode_rune b s ≡ (b, 1)
unfolding decode_rune continued
decode_rune_low b s h = rw (starts_ascii b h, decode_rune) refl

-- A byte that is not ASCII gives a rune that is not.
pub decode_rune_high : (b : ℕ) (s : Str) → 128 ≤ b → 128 ≤ (decode_rune b s).0
unfolding decode_rune
decode_rune_high b s h = go (starts b) (λ bits rs. starts_high b bits rs h)
  where
    go :
        (started : Option (ℕ × List Range))
        → ((bits : ℕ) (rs : List Range) → started ≡ some (bits, rs) → 128 ≤ least bits rs)
        → 128
          ≤ (elim started as (λ x. ℕ × ℕ) [
            | none ↦ (rune_error, 1)
            | some (bits, rs) ↦ elim (continued bits rs s) [
              | none ↦ (rune_error, 1)
              | some rune ↦ (rune, 1 + length rs)
            ]
          ]).0
    go none high = omega arith
    go (some (bits, rs)) high = elim (Option-cases (continued bits rs s)) [
      | inl broken ↦ rw broken (omega arith)
      | inr (rune, whole) ↦
          rw whole (omega (arith, high bits rs refl, continued-least bits rs s rune whole))
    ]
